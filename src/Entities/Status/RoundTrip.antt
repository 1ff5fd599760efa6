-- ===== src/Entities/Status/RoundTrip.antt =====
-- The text of a status, as the state file stores it, against its parser.
use pm.Base.{◌≡◌, refl, some, Text, codes, text_eq_iff, arith}
use pm.Entities.Status.{ProcessStatus, launching, as_str, parse}

pub parse-as_str : (s : ProcessStatus) → parse (as_str s) ≡ some s
unfolding parse as_str
parse-as_str launching = refl
parse-as_str _ = refl

pub as_str_of_parse : (raw : Text) (s : ProcessStatus) → parse raw ≡ some s → raw ≡ as_str s
unfolding as_str parse
as_str_of_parse raw s h = ground (
  arith,
  text_eq_iff raw (codes "launching"),
  text_eq_iff raw (codes "online"),
  text_eq_iff raw (codes "stopping"),
  text_eq_iff raw (codes "stopped"),
  text_eq_iff raw (codes "errored"),
)
