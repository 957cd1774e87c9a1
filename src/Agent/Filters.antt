-- ===== src/Agent/Filters.antt =====
-- The filters of agent/internal/capture/recorder.go: which processes and log entries are the agent's
-- own, or of no interest.
use rdp_warp_portal.Prelude.{
  Bool, false, ◌&&◌, ◌||◌, List, [], ◌∷◌, text_eq, nat_eq, Text, codes, ◌==◌, ℤ, int_is,
}
use rdp_warp_portal.Strings.{contains, to_lower}

-- Whether a text contains one of some words.
unfoldable pub contains_any : Text → List Text → Bool
unfolding contains
contains_any s [] = false
contains_any s (w ∷ words) = contains s w || contains_any s words

-- The `switch` of `isAgentProcess`.
unfoldable pub is_agent_name : Text → Bool
is_agent_name name =
    name == codes "ffmpeg.exe"
    || name == codes "ffmpeg"
    || name == codes "powershell.exe"
    || name == codes "agent.exe"
    || name == codes "p0rtal-agent.exe"

unfoldable pub is_agent_process : Text → Text → Bool
unfolding contains contains_any to_lower is_agent_name
is_agent_process name command_line =
    let command = to_lower command_line in
    is_agent_name (to_lower name)
    || (contains command (codes "p0rtal")
        && contains_any command (codes "ffmpeg" ∷ codes "agent" ∷ []))
    || to_lower name == codes "powershell.exe"
    || contains_any command (codes "register-wmievent" ∷ codes "get-winevent" ∷ [])

abbrev pub agent_words : List Text
agent_words =
    codes "agent.exe"
    ∷ codes "p0rtal-agent"
    ∷ codes "p0rtal"
    ∷ codes "rdp-warp-portal"
    ∷ codes "ffmpeg.exe"
    ∷ codes "ffmpeg"
    ∷ codes "icacls"
    ∷ codes "c:\\p0rtal"
    ∷ []

abbrev pub quiet_processes : List Text
quiet_processes =
    codes "svchost.exe"
    ∷ codes "wmiprvse.exe"
    ∷ codes "searchindexer.exe"
    ∷ codes "runtimebroker.exe"
    ∷ codes "backgroundtaskhost.exe"
    ∷ codes "compattelrunner.exe"
    ∷ codes "diagtrack"
    ∷ codes "searchprotocolhost.exe"
    ∷ codes "searchfilterhost.exe"
    ∷ codes "taskhostw.exe"
    ∷ []

unfoldable pub is_agent_win_log_event : Text → Bool
unfolding contains_any to_lower
is_agent_win_log_event message =
    contains_any (to_lower message) agent_words || contains_any (to_lower message) quiet_processes

abbrev pub noisy_processes : List Text
noisy_processes =
    codes "svchost.exe"
    ∷ codes "wmiprvse.exe"
    ∷ codes "searchindexer.exe"
    ∷ codes "runtimebroker.exe"
    ∷ codes "backgroundtaskhost.exe"
    ∷ codes "compattelrunner.exe"
    ∷ codes "diagtrack"
    ∷ codes "searchprotocolhost.exe"
    ∷ codes "searchfilterhost.exe"
    ∷ codes "taskhostw.exe"
    ∷ codes "conhost.exe"
    ∷ codes "csrss.exe"
    ∷ codes "smss.exe"
    ∷ codes "wininit.exe"
    ∷ codes "services.exe"
    ∷ codes "lsass.exe"
    ∷ codes "spoolsv.exe"
    ∷ codes "dllhost.exe"
    ∷ codes "sihost.exe"
    ∷ codes "ctfmon.exe"
    ∷ codes "fontdrvhost.exe"
    ∷ codes "dwm.exe"
    ∷ codes "audiodg.exe"
    ∷ codes "systemsettings.exe"
    ∷ codes "textinputhost.exe"
    ∷ codes "shellexperiencehost.exe"
    ∷ codes "startmenuexperiencehost.exe"
    ∷ codes "windowsinternal"
    ∷ codes "microsoftedgeupdate.exe"
    ∷ codes "musnotification.exe"
    ∷ codes "securityhealthservice.exe"
    ∷ codes "sgrmbroker.exe"
    ∷ codes "msdtc.exe"
    ∷ codes "tiworker.exe"
    ∷ codes "trustedinstaller.exe"
    ∷ codes "csc.exe"
    ∷ codes "cvtres.exe"
    ∷ codes "vbc.exe"
    ∷ codes "agent.exe"
    ∷ codes "p0rtal-agent.exe"
    ∷ codes "ffmpeg.exe"
    ∷ codes "icacls.exe"
    ∷ []

unfoldable pub is_noisy_win_log_process : Text → Bool
unfolding contains_any to_lower
is_noisy_win_log_process message = contains_any (to_lower message) noisy_processes

abbrev pub system_accounts : List Text
system_accounts =
    codes "system"
    ∷ codes "nt authority\\system"
    ∷ codes "local service"
    ∷ codes "nt authority\\local service"
    ∷ codes "network service"
    ∷ codes "nt authority\\network service"
    ∷ codes "dwm-"
    ∷ codes "umfd-"
    ∷ []

unfoldable pub is_system_account_logon : ℤ → Text → Bool
unfolding contains_any to_lower
is_system_account_logon event_id user =
    (int_is event_id 4624 || int_is event_id 4634 || int_is event_id 4647)
    && contains_any (to_lower user) system_accounts

abbrev pub script_noise : List Text
script_noise =
    codes "add-type -memberdefinition"
    ∷ codes "[dllimport("
    ∷ codes "register-wmievent"
    ∷ codes "get-winevent -filterhashtable"
    ∷ codes "$eventids = @(4624"
    ∷ codes "$lastcheck = (get-date)"
    ∷ codes "microsoft.powershell.utility"
    ∷ codes "microsoft.powershell.management"
    ∷ codes "microsoft.powershell.security"
    ∷ codes "function prompt {"
    ∷ codes "out-default"
    ∷ codes "tabexpansion2"
    ∷ codes "commandcompletion"
    ∷ []

unfoldable pub is_noisy_script_block : Text → Bool
unfolding contains_any to_lower
is_noisy_script_block script_block = contains_any (to_lower script_block) script_noise

unfoldable pub is_agent_parent_process : Text → Bool
unfolding contains_any to_lower
is_agent_parent_process parent_process =
    contains_any (to_lower parent_process)
      (codes "agent.exe" ∷ codes "p0rtal-agent" ∷ codes "p0rtal" ∷ [])
