-- ===== src/Entities/Signal.antt =====
-- entities/src/process/signal.rs. `str::to_uppercase` maps all of Unicode by a table of the
-- standard library, so it is a parameter.
use pm.Base.{List, [], ◌∷◌, Text, codes, contains_text, Result, ok, err, if◌then◌else◌}

abbrev pub valid_signals : List Text
valid_signals =
    codes "TERM" ∷ codes "INT" ∷ codes "QUIT" ∷ codes "HUP" ∷ codes "USR1" ∷ codes "USR2" ∷ []

pub data SignalNameError : Type 0 where
  unknown_signal : (raw : Text) → SignalNameError

unfoldable pub parse_signal_name : (to_uppercase : Text → Text) → Text → Result Text SignalNameError
unfolding contains_text
parse_signal_name to_uppercase raw =
    if contains_text valid_signals (to_uppercase raw)
    then ok (to_uppercase raw)
    else err (unknown_signal raw)
