-- ===== src/Adapters/Unit/Schtasks.antt =====
-- adapters/src/unit/schtasks.rs: the task and the script that install the daemon.
use pm.Base.{max, [], ◌∷◌, ◌++◌, map, Text, codes, concat, print_decimal, ◌==◌, if◌then◌else◌}
use pm.Adapters.Unit.{UnitSpec, environment_pairs, wrapper_path, daemon_subcommand, config_flag}
use pm.Adapters.Unit.Launchd.{escape_xml}

abbrev pub utf16_declaration : Text
utf16_declaration = codes "<?xml version=\"1.0\" encoding=\"UTF-16\"?>\n"

abbrev pub task_opening : Text
task_opening =
    codes "<Task version=\"1.2\" xmlns=\"http://schemas.microsoft.com/windows/2004/02/mit/task\">\n"

unfoldable pub render_task_xml : UnitSpec → Text
render_task_xml spec = concat (
    utf16_declaration
    ∷ task_opening
    ∷ codes "  <RegistrationInfo>\n"
    ∷ codes "    <Description>"
    ∷ escape_xml spec.label
    ∷ codes "</Description>\n"
    ∷ codes "  </RegistrationInfo>\n"
    ∷ codes "  <Triggers>\n"
    ∷ codes "    <LogonTrigger>\n"
    ∷ codes "      <Enabled>true</Enabled>\n"
    ∷ codes "      <UserId>"
    ∷ escape_xml spec.account
    ∷ codes "</UserId>\n"
    ∷ codes "    </LogonTrigger>\n"
    ∷ codes "  </Triggers>\n"
    ∷ codes "  <Principals>\n"
    ∷ codes "    <Principal>\n"
    ∷ codes "      <UserId>"
    ∷ escape_xml spec.account
    ∷ codes "</UserId>\n"
    ∷ codes "      <LogonType>InteractiveToken</LogonType>\n"
    ∷ codes "      <RunLevel>LeastPrivilege</RunLevel>\n"
    ∷ codes "    </Principal>\n"
    ∷ codes "  </Principals>\n"
    ∷ codes "  <Settings>\n"
    ∷ codes "    <MultipleInstancesPolicy>IgnoreNew</MultipleInstancesPolicy>\n"
    ∷ codes "    <DisallowStartIfOnBatteries>false</DisallowStartIfOnBatteries>\n"
    ∷ codes "    <StopIfGoingOnBatteries>false</StopIfGoingOnBatteries>\n"
    ∷ codes "    <AllowHardTerminate>false</AllowHardTerminate>\n"
    ∷ codes "    <ExecutionTimeLimit>PT0S</ExecutionTimeLimit>\n"
    ∷ codes "    <RestartOnFailure>\n"
    ∷ codes "      <Interval>PT"
    ∷ print_decimal (max spec.restart_delay_secs 60)
    ∷ codes "S</Interval>\n"
    ∷ codes "      <Count>"
    ∷ print_decimal 999
    ∷ codes "</Count>\n"
    ∷ codes "    </RestartOnFailure>\n"
    ∷ codes "  </Settings>\n"
    ∷ codes "  <Actions>\n"
    ∷ codes "    <Exec>\n"
    ∷ codes "      <Command>"
    ∷ escape_xml (wrapper_path spec)
    ∷ codes "</Command>\n"
    ∷ codes "      <WorkingDirectory>"
    ∷ escape_xml spec.working_directory
    ∷ codes "</WorkingDirectory>\n"
    ∷ codes "    </Exec>\n"
    ∷ codes "  </Actions>\n"
    ∷ codes "</Task>\n"
    ∷ [])

unfoldable pub escape_batch : Text → Text
escape_batch [] = []
escape_batch (c ∷ raw) = (if c == b'%' then codes "%%" else c ∷ []) ++ escape_batch raw

unfoldable pub render_assignment : Text × Text → Text
unfolding escape_batch
render_assignment (name, value) =
    concat (codes "set \"" ∷ name ∷ codes "=" ∷ escape_batch value ∷ codes "\"\r\n" ∷ [])

unfoldable pub render_wrapper : UnitSpec → Text
unfolding render_assignment
render_wrapper spec = concat (
    codes "@echo off\r\n"
    ∷ concat (map render_assignment (environment_pairs spec))
    ∷ codes "\""
    ∷ spec.program
    ∷ codes "\" "
    ∷ daemon_subcommand
    ∷ codes " "
    ∷ config_flag
    ∷ codes " \""
    ∷ spec.config_path
    ∷ codes "\" >> \""
    ∷ spec.log_path
    ∷ codes "\" 2>&1\r\nexit /b 1\r\n"
    ∷ [])
