-- ===== src/Entities/Status.antt =====
-- entities/src/process/status.rs
pub mod RoundTrip
use pm.Base.{Bool, true, false, Option, none, some, Text, codes, text_eq, if◌then◌else◌}

pub data ProcessStatus : Type 0 where
  launching online stopping stopped errored : ProcessStatus

unfoldable pub as_str : ProcessStatus → Text
as_str launching = codes "launching"
as_str online = codes "online"
as_str stopping = codes "stopping"
as_str stopped = codes "stopped"
as_str errored = codes "errored"

unfoldable pub parse : Text → Option ProcessStatus
unfolding text_eq
parse raw =
    if text_eq raw (codes "launching")
    then some launching
    else if text_eq raw (codes "online")
    then some online
    else if text_eq raw (codes "stopping")
    then some stopping
    else if text_eq raw (codes "stopped")
    then some stopped
    else if text_eq raw (codes "errored")
    then some errored
    else none

abbrev pub is_running : ProcessStatus → Bool
is_running launching = true
is_running online = true
is_running _ = false

abbrev pub is_shutting_down : ProcessStatus → Bool
is_shutting_down stopping = true
is_shutting_down _ = false

abbrev pub is_settled : ProcessStatus → Bool
is_settled stopped = true
is_settled errored = true
is_settled _ = false

abbrev pub status_eq : ProcessStatus → ProcessStatus → Bool
status_eq launching launching = true
status_eq online online = true
status_eq stopping stopping = true
status_eq stopped stopped = true
status_eq errored errored = true
status_eq _ _ = false
