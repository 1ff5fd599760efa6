-- ===== src/Entities/Priority.antt =====
-- entities/src/process/priority.rs
use pm.Base.{Option, none, some, Text, codes, text_eq, if◌then◌else◌}

pub data Priority : Type 0 where
  background standard interactive : Priority

unfoldable pub parse : Text → Option Priority
unfolding text_eq
parse raw =
    if text_eq raw (codes "background")
    then some background
    else if text_eq raw (codes "standard")
    then some standard
    else if text_eq raw (codes "interactive")
    then some interactive
    else none
