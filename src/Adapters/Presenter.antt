-- ===== src/Adapters/Presenter.antt =====
-- adapters/src/presenter/fields.rs: the texts of the fields of a table. Dates and clocks, which a
-- third-party crate formats, are not modelled.
mod Examples
use pm.Base.{
  ℕ, zero, suc, ◌+◌, ◌-◌, ◌/◌, ◌%◌, max, Bool, Option, none, some, List, [], ◌∷◌, ◌++◌, length,
  is_empty, Text, codes, concat, join, text_eq, print_decimal, saturating_mul, max_u64, ltb, leb,
  ◌==◌, if◌then◌else◌,
}
use pm.Entities.Spec.{EnvOrigin, plain, encrypted, sealed}

abbrev pub missing : Text
missing = codes "-"

abbrev pub ms_per_second : ℕ
ms_per_second = 1000

abbrev pub seconds_per_minute : ℕ
seconds_per_minute = 60

abbrev pub minutes_per_hour : ℕ
minutes_per_hour = 60

abbrev pub hours_per_day : ℕ
hours_per_day = 24

abbrev pub kib_per_mib : ℕ
kib_per_mib = 1024

abbrev pub tenths_per_percent : ℕ
tenths_per_percent = 10

unfoldable pub format_memory : Option ℕ → Text
unfolding concat
format_memory none = missing
format_memory (some kib) =
    let tenths = saturating_mul max_u64 kib tenths_per_percent / kib_per_mib in
    if leb kib_per_mib kib
    then concat (
        print_decimal (tenths / tenths_per_percent)
        ∷ codes "."
        ∷ print_decimal (tenths % tenths_per_percent)
        ∷ codes "M"
        ∷ [])
    else print_decimal kib ++ codes "K"

unfoldable pub format_cpu : Option ℕ → Text
unfolding concat
format_cpu none = missing
format_cpu (some tenths) = concat (
    print_decimal (tenths / tenths_per_percent)
    ∷ codes "."
    ∷ print_decimal (tenths % tenths_per_percent)
    ∷ codes "%"
    ∷ [])

unfoldable pub format_pid : Option ℕ → Text
format_pid none = missing
format_pid (some pid) = print_decimal pid

unfoldable pub format_uptime : Option ℕ → Text
format_uptime none = missing
format_uptime (some elapsed_ms) =
    let seconds = elapsed_ms / ms_per_second in
    let minutes = seconds / seconds_per_minute in
    let hours = minutes / minutes_per_hour in
    if seconds == 0
    then print_decimal elapsed_ms ++ codes "ms"
    else if ltb seconds seconds_per_minute
    then print_decimal seconds ++ codes "s"
    else if ltb minutes minutes_per_hour
    then print_decimal minutes ++ codes "m"
    else if ltb hours hours_per_day
    then print_decimal hours ++ codes "h"
    else print_decimal (hours / hours_per_day) ++ codes "d"

unfoldable pub format_sandbox : Text → (network : Bool) → Text
format_sandbox mode network = if network then mode ++ codes "+net" else mode

unfoldable pub counted_noun : ℕ → Text
counted_noun declared = if declared == 1 then codes "value" else codes "values"

-- The name of an origin.
unfoldable pub named_origin : EnvOrigin → Text
named_origin plain = codes "plain"
named_origin encrypted = codes "encrypted"
named_origin sealed = codes "encrypted, not opened"

unfoldable pub format_env_origin : EnvOrigin → ℕ → Text
unfolding concat named_origin counted_noun
format_env_origin origin declared = concat (
    named_origin origin
    ∷ codes " ("
    ∷ print_decimal declared
    ∷ codes " "
    ∷ counted_noun declared
    ∷ codes ")"
    ∷ [])

unfoldable pub format_list : List Text → Text
format_list items = if is_empty items then missing else join (codes ", ") items

unfoldable pub spaces : ℕ → Text
spaces zero = []
spaces (suc n) = b' ' ∷ spaces n

-- `format!("{cell:<width$}")`
unfoldable pub pad : Text → (width : ℕ) → Text
unfolding spaces
pad cell width = cell ++ spaces (width - length cell)

unfoldable pub widest : List ℕ → ℕ
widest [] = 0
widest (cell ∷ cells) = max cell (widest cells)

unfoldable pub format_restarts : ℕ → Text
format_restarts unstable = if unstable == 0 then missing else print_decimal unstable

unfoldable pub format_resources : (rss_kib cpu_tenths : Option ℕ) → Text
unfolding concat format_memory format_cpu
format_resources none cpu_tenths = missing
format_resources (some rss) cpu_tenths =
    concat (format_memory (some rss) ∷ codes "/" ∷ format_cpu cpu_tenths ∷ [])

unfoldable pub write_flag : Text → Text
write_flag mode =
    if text_eq mode (codes "danger-full-access")
    then codes "F"
    else if text_eq mode (codes "workspace-write")
    then codes "W"
    else codes "-"

unfoldable pub read_flag : Text → Text
read_flag read = if text_eq read (codes "full") then codes "R" else codes "-"

unfoldable pub network_flag : Bool → Text
network_flag network = if network then codes "N" else codes "-"

unfoldable pub format_sandbox_flags : (mode read : Text) → (network : Bool) → Text
unfolding concat write_flag read_flag network_flag
format_sandbox_flags mode read network =
    concat (write_flag mode ∷ codes "/" ∷ read_flag read ∷ codes "/" ∷ network_flag network ∷ [])
