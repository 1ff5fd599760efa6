-- ===== src/Adapters/Unit/Launchd.antt =====
-- adapters/src/unit/escape.rs and launchd.rs: the property list that installs the daemon.
use pm.Base.{
  ℕ, [], ◌∷◌, ◌++◌, map, Text, codes, concat, text_eq, print_decimal, ◌==◌, if◌then◌else◌,
}
use pm.Adapters.Config.{restart_condition_on_failure}
use pm.Adapters.Unit.{UnitSpec, daemon_args, environment_pairs}

-- The text that stands for one character in XML.
unfoldable pub xml_of : ℕ → Text
xml_of c =
    if c == b'&'
    then codes "&amp;"
    else if c == b'<'
    then codes "&lt;"
    else if c == b'>'
    then codes "&gt;"
    else if c == 34
    then codes "&quot;"
    else if c == 39
    then codes "&apos;"
    else c ∷ []

unfoldable pub escape_xml : Text → Text
unfolding xml_of
escape_xml [] = []
escape_xml (c ∷ raw) = xml_of c ++ escape_xml raw

abbrev pub plist_header : Text
plist_header = concat (
    codes "<?xml version=\"1.0\" encoding=\"UTF-8\"?>\n"
    ∷ codes "<!DOCTYPE plist PUBLIC \"-//Apple//DTD PLIST 1.0//EN\" "
    ∷ codes "\"http://www.apple.com/DTDs/PropertyList-1.0.dtd\">\n"
    ∷ codes "<plist version=\"1.0\">\n"
    ∷ [])

abbrev pub keep_alive_on_failure : Text
keep_alive_on_failure =
    codes "<dict>\n        <key>SuccessfulExit</key>\n        <false/>\n    </dict>"

unfoldable pub keep_alive_of : Text → Text
keep_alive_of restart_condition =
    if text_eq restart_condition restart_condition_on_failure
    then keep_alive_on_failure
    else codes "<true/>"

unfoldable pub render_argument : Text → Text
unfolding escape_xml
render_argument raw = concat (codes "        <string>" ∷ escape_xml raw ∷ codes "</string>\n" ∷ [])

-- `render_variable` of launchd.rs
unfoldable pub render_xml_variable : Text × Text → Text
unfolding escape_xml
render_xml_variable (name, value) = concat (
    codes "        <key>"
    ∷ escape_xml name
    ∷ codes "</key>\n        <string>"
    ∷ escape_xml value
    ∷ codes "</string>\n"
    ∷ [])

unfoldable pub render_plist : UnitSpec → Text
render_plist spec = concat (
    plist_header
    ∷ codes "<dict>\n"
    ∷ codes "    <key>Label</key>\n"
    ∷ codes "    <string>"
    ∷ escape_xml spec.label
    ∷ codes "</string>\n"
    ∷ codes "    <key>ProgramArguments</key>\n"
    ∷ codes "    <array>\n"
    ∷ render_argument spec.program
    ∷ concat (map render_argument (daemon_args spec))
    ∷ codes "    </array>\n"
    ∷ codes "    <key>WorkingDirectory</key>\n"
    ∷ codes "    <string>"
    ∷ escape_xml spec.working_directory
    ∷ codes "</string>\n"
    ∷ codes "    <key>RunAtLoad</key>\n"
    ∷ codes "    <true/>\n"
    ∷ codes "    <key>KeepAlive</key>\n"
    ∷ codes "    "
    ∷ keep_alive_of spec.restart_condition
    ∷ codes "\n"
    ∷ codes "    <key>ThrottleInterval</key>\n"
    ∷ codes "    <integer>"
    ∷ print_decimal spec.restart_delay_secs
    ∷ codes "</integer>\n"
    ∷ codes "    <key>AbandonProcessGroup</key>\n"
    ∷ codes "    <true/>\n"
    ∷ codes "    <key>ProcessType</key>\n"
    ∷ codes "    <string>Interactive</string>\n"
    ∷ codes "    <key>Umask</key>\n"
    ∷ codes "    <integer>"
    ∷ print_decimal spec.umask
    ∷ codes "</integer>\n"
    ∷ codes "    <key>HardResourceLimits</key>\n"
    ∷ codes "    <dict>\n"
    ∷ codes "        <key>NumberOfProcesses</key>\n"
    ∷ codes "        <integer>"
    ∷ print_decimal spec.max_tasks
    ∷ codes "</integer>\n"
    ∷ codes "    </dict>\n"
    ∷ codes "    <key>StandardOutPath</key>\n"
    ∷ codes "    <string>"
    ∷ escape_xml spec.log_path
    ∷ codes "</string>\n"
    ∷ codes "    <key>StandardErrorPath</key>\n"
    ∷ codes "    <string>"
    ∷ escape_xml spec.log_path
    ∷ codes "</string>\n"
    ∷ codes "    <key>EnvironmentVariables</key>\n"
    ∷ codes "    <dict>\n"
    ∷ concat (map render_xml_variable (environment_pairs spec))
    ∷ codes "    </dict>\n"
    ∷ codes "</dict>\n"
    ∷ codes "</plist>\n"
    ∷ [])
