-- ===== src/Usecases/LogPaths.antt =====
-- usecases/src/log_paths.rs
use pm.Base.{◌++◌, Text, codes, trim_end_matches, ◌==◌}

pub data LogStream : Type 0 where
  stdout stderr : LogStream

pub record LogPaths : Type 0 where
  pub stdout : Text
  pub stderr : Text

abbrev suffix : LogStream → Text
suffix stdout = codes "-out.log"
suffix stderr = codes "-err.log"

unfoldable pub log_path : Text → Text → LogStream → Text
log_path logs_dir app stream =
    trim_end_matches (λ c. c == b'/') logs_dir ++ (codes "/" ++ (app ++ suffix stream))

unfoldable pub log_paths : Text → Text → LogPaths
log_paths logs_dir app = record {
  stdout = log_path logs_dir app LogStream.stdout;
  stderr = log_path logs_dir app LogStream.stderr;
}
