-- ===== src/Usecases/Fingerprint.antt =====
-- usecases/src/fingerprint.rs
use pm.Base.{
  Bool, true, false, not, Option, some, List, [], ◌∷◌, ◌++◌, map, filter, Text, codes, text_eq,
  text_lt, print_decimal, utf8_len, if◌then◌else◌,
}
use mathlib.Core.List.{flatten}
use pm.Entities.Env.{EnvScope, global, EnvValue}
use pm.Entities.Policy.{mode_as_str, read_as_str}
use pm.Entities.Spec.{AppSpec}
use pm.Usecases.Ports.{Liveness, alive}

-- `String::len` counts bytes.
unfoldable pub field : Text → Text → Text
field label value =
    label ++ (codes " " ++ (print_decimal (utf8_len value) ++ (codes " " ++ (value ++ codes "\n"))))

abbrev network_label : Bool → Text
network_label true = codes "allowed"
network_label false = codes "denied"

abbrev identifies_the_process : EnvScope → Bool
identifies_the_process global = false
identifies_the_process _ = true

-- The comparison of `sort_by`: by key, then by value.
entry_lt : EnvValue → EnvValue → Bool
entry_lt a b = if text_eq a.key b.key then text_lt a.value b.value else text_lt a.key b.key

-- A stable sort: an entry goes before the first later one that is greater or equal.
insert_entry : EnvValue → List EnvValue → List EnvValue
unfolding entry_lt
insert_entry e [] = e ∷ []
insert_entry e (f ∷ rest) =
    let later = insert_entry e rest in if entry_lt f e then f ∷ later else e ∷ f ∷ rest

sort_entries : List EnvValue → List EnvValue
unfolding insert_entry
sort_entries [] = []
sort_entries (e ∷ rest) = insert_entry e (sort_entries rest)

sorted_env : List EnvValue → List EnvValue
unfolding sort_entries
sorted_env env = sort_entries (filter (λ e. identifies_the_process e.scope) env)

entry_line : EnvValue → Text
entry_line entry = entry.key ++ (codes "=" ++ entry.value)

unfoldable pub render_identity : AppSpec → Text
unfolding field sorted_env entry_line
render_identity spec =
    field (codes "name") spec.name
    ++ (field (codes "program") spec.script
        ++ (field (codes "cwd") spec.cwd
            ++ (field (codes "sandbox") (mode_as_str spec.sandbox.mode)
                ++ (field (codes "read") (read_as_str spec.sandbox.read)
                    ++ (field (codes "network") (network_label spec.sandbox.network)
                        ++ flatten (
                            map (field (codes "arg")) spec.args
                            ++ (map (field (codes "root")) spec.sandbox.writable_roots
                                ++ (map (field (codes "readable_root")) spec.sandbox.readable_roots
                                    ++ map (λ e. field (codes "env") (entry_line e))
                                        (sorted_env spec.env)))))))))

unfoldable pub pid_was_recycled : Liveness → Option Text → Bool
pid_was_recycled (alive current) (some expected) = not (text_eq current expected)
pid_was_recycled _ _ = false
