-- ===== src/Usecases/Lifecycle/Restarting.antt =====
-- restart.rs: the `expect` of the launch that a restart makes never fails.
use pm.Base.{
  ◌≡◌, ◌≢◌, none, some, Text, text_eq_refl, find, find-some, find-none, Bool-cases, Option-cases,
  inl, inr, ok, err, arith,
}
use pm.Entities.Status.{is_settled}
use pm.Usecases.Launch.{fire, StartMode, launch}
use pm.Usecases.Ports.{Ports}
use pm.Usecases.Record.{ProcessRecord}
use pm.Usecases.Restart.{restart_app, restart_settled}
use pm.Usecases.Selector.{AppSelector}
use pm.Usecases.Table.{ProcessTable, selects, has_name, find_record, find_by_name}

module _ {W : Type 0} (ports : Ports W) where
  launch-ne-none :
      (table : ProcessTable) (selector : AppSelector) (r : ProcessRecord) (logs_dir : Text)
      (mode : StartMode) (w : W)
      → find (selects selector) table.records ≡ some r
      → launch ports table r.runtime.name logs_dir mode w ≢ none
  unfolding launch find_by_name
  launch-ne-none table selector r logs_dir mode w found h =
      elim (Option-cases (find (has_name r.runtime.name) table.records)) [
        | inl absent ↦
            let missed =
              find-none (has_name r.runtime.name) table.records absent
                (find-some (selects selector) table.records found).0 in
            absurd (ground (arith, missed, text_eq_refl r.runtime.name))
        | inr (s, e) ↦ let h' = rw (e, launch) at h in cc
      ]

  restart_settled-ne-none :
      (table : ProcessTable) (name logs_dir : Text) (w : W)
      → launch ports table name logs_dir fire w ≢ none
      → restart_settled ports table name logs_dir w ≢ none
  unfolding restart_settled
  restart_settled-ne-none table name logs_dir w launched h =
      elim (Option-cases (launch ports table name logs_dir fire w)) [
        | inl e ↦ launched e
        | inr ((ok o, table', w'), e) ↦ let h' = rw (e, restart_settled) at h in cc
        | inr ((err x, table', w'), e) ↦ let h' = rw (e, restart_settled) at h in cc
      ]

  -- A restart never stops on an internal error, whatever the selector, the table and the outside: the
  -- record that is looked up by its selector is there when it is looked up by its name.
  pub restart_app-ne-none :
      (table : ProcessTable) (selector : AppSelector) (logs_dir : Text) (w : W)
      → restart_app ports table selector logs_dir w ≢ none
  unfolding restart_app find_record
  restart_app-ne-none table selector logs_dir w h =
      elim (Option-cases (find (selects selector) table.records)) [
        | inl absent ↦ let h' = rw (absent, restart_app) at h in cc
        | inr (r, found) ↦ elim (Bool-cases (is_settled r.runtime.status)) [
          | inl e ↦
              restart_settled-ne-none table r.runtime.name logs_dir w
                (launch-ne-none table selector r logs_dir fire w found)
                (rw e at (rw (found, restart_app) at h))
          | inr e ↦ let h' = rw e at (rw (found, restart_app) at h) in cc
        ]
      ]
