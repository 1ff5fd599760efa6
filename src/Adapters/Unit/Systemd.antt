-- ===== src/Adapters/Unit/Systemd.antt =====
-- adapters/src/unit/systemd.rs: the unit file that installs the daemon.
use pm.Base.{
  ℕ, zero, suc, ◌+◌, ◌-◌, ◌/◌, ◌%◌, Bool, [], ◌∷◌, ◌++◌, map, length, Text, codes, concat, join,
  print_decimal, ltb, ◌==◌, if◌then◌else◌,
}
use pm.Adapters.Unit.{UnitSpec, daemon_args, environment_pairs}

-- The text that stands for one character in a unit file.
unfoldable pub value_of : ℕ → Text
value_of c =
    if c == 92
    then 92 ∷ 92 ∷ []
    else if c == 34
    then 92 ∷ 34 ∷ []
    else if c == b'%'
    then codes "%%"
    else c ∷ []

unfoldable pub escape_value : Text → Text
unfolding value_of
escape_value [] = []
escape_value (c ∷ raw) = value_of c ++ escape_value raw

unfoldable pub quote_token : Text → Text
unfolding escape_value
quote_token raw = concat (codes "\"" ∷ escape_value raw ∷ codes "\"" ∷ [])

unfoldable pub render_exec_start : UnitSpec → Text
unfolding quote_token
render_exec_start spec = join (codes " ") (map quote_token (spec.program ∷ daemon_args spec))

unfoldable pub render_variable : Text × Text → Text
unfolding escape_value
render_variable (name, value) = concat (
    codes "Environment=\"" ∷ escape_value name ∷ codes "=" ∷ escape_value value ∷ codes "\"\n" ∷ [])

unfoldable pub render_cpu_quota : ℕ → Text
render_cpu_quota percent =
    if percent == 0
    then []
    else concat (codes "CPUQuota=" ∷ print_decimal percent ∷ codes "%\n" ∷ [])

unfoldable pub render_network_wait : Bool → Text
render_network_wait wait_for_network =
    if wait_for_network
    then codes "Wants=network-online.target\nAfter=network-online.target\n"
    else []

-- The octal digits of a number in front of a text, with `n + 1` as fuel.
unfoldable pub octal_digits : ℕ → ℕ → Text → Text
octal_digits zero n out = out
octal_digits (suc fuel) n out =
    let rest = octal_digits fuel (n / 8) ((b'0' + n % 8) ∷ out) in
    if ltb n 8 then (b'0' + n) ∷ out else rest

unfoldable pub zeros : ℕ → Text
zeros zero = []
zeros (suc n) = b'0' ∷ zeros n

-- `format!("{n:04o}")`
unfoldable pub print_octal : ℕ → Text
unfolding octal_digits zeros
print_octal n = let digits = octal_digits (suc n) n [] in zeros (4 - length digits) ++ digits

unfoldable pub render_unit : UnitSpec → Text
render_unit spec = concat (
    codes "[Unit]\n"
    ∷ codes "Description="
    ∷ escape_value spec.label
    ∷ codes "\n"
    ∷ codes "After=default.target\n"
    ∷ render_network_wait spec.wait_for_network
    ∷ codes "\n"
    ∷ codes "[Service]\n"
    ∷ codes "Type=simple\n"
    ∷ codes "ExecStart="
    ∷ render_exec_start spec
    ∷ codes "\n"
    ∷ codes "WorkingDirectory="
    ∷ escape_value spec.working_directory
    ∷ codes "\n"
    ∷ codes "Restart="
    ∷ escape_value spec.restart_condition
    ∷ codes "\n"
    ∷ codes "RestartSec="
    ∷ print_decimal spec.restart_delay_secs
    ∷ codes "\n"
    ∷ codes "KillMode=process\n"
    ∷ codes "UMask="
    ∷ print_octal spec.umask
    ∷ codes "\n"
    ∷ codes "LimitCORE=0\n"
    ∷ codes "TasksMax="
    ∷ print_decimal spec.max_tasks
    ∷ codes "\n"
    ∷ render_cpu_quota spec.cpu_quota_percent
    ∷ concat (map render_variable (environment_pairs spec))
    ∷ codes "StandardOutput=append:"
    ∷ escape_value spec.log_path
    ∷ codes "\n"
    ∷ codes "StandardError=append:"
    ∷ escape_value spec.log_path
    ∷ codes "\n"
    ∷ codes "\n"
    ∷ codes "[Install]\n"
    ∷ codes "WantedBy=default.target\n"
    ∷ [])
