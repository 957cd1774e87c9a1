-- ===== src/Session/ConfigWriter.antt =====
-- proxy/internal/session/config_writer.go: the proxy's INI file, and the session directories. A
-- directory is the file `proxy.ini` in it, if there is one; directories stand under the session's
-- id, and the calls of the operating system succeed or fail as the environment says.
use rdp_warp_portal.Prelude.{
  ℕ, Bool, true, false, Option, none, some, List, [], ◌∷◌, ◌++◌, if◌then◌else◌, text_eq, Text,
  codes,
}
use rdp_warp_portal.Prelude.Assoc.{GoMap, lookup, insert, delete}
use rdp_warp_portal.Strings.{contains, itoa}

pub record TargetCredentials : Type 0 where
  pub hostname : Text
  pub ip : Text
  pub port : ℕ
  pub username : Text
  pub password : Text
  pub domain : Text

pub record ProxyConfig : Type 0 where
  pub server_host : Text
  pub server_port : ℕ
  pub target_host : Text
  pub target_port : ℕ
  pub target_user : Text
  pub target_password : Text
  pub target_domain : Text
  pub certificate_file : Text
  pub private_key_file : Text

-- A name in UPN form carries its domain already.
unfoldable pub creds_domain : TargetCredentials → Text
creds_domain creds = if contains creds.username (codes "@") then [] else creds.domain

-- `filepath.Join` of the certificate directory and a file's name.
abbrev in_dir : Text → Text → Text
in_dir dir name = dir ++ (b'/' ∷ name)

unfoldable pub proxy_config : Text → ℕ → TargetCredentials → ProxyConfig
unfolding creds_domain
proxy_config cert_dir internal_port creds = record {
  server_host = codes "127.0.0.1";
  server_port = internal_port;
  target_host = creds.ip;
  target_port = creds.port;
  target_user = creds.username;
  target_password = creds.password;
  target_domain = creds_domain creds;
  certificate_file = in_dir cert_dir (codes "server.crt");
  private_key_file = in_dir cert_dir (codes "server.key");
}

-- A setting of the template, with the value that is filled in.
abbrev setting : Text → Text → Text
setting key value = key ++ (codes " = " ++ value)

abbrev fixed_sections : List Text
fixed_sections =
    []
    ∷ codes "[Channels]"
    ∷ codes "GFX = true"
    ∷ codes "DisplayControl = true"
    ∷ codes "Clipboard = true"
    ∷ codes "AudioInput = true"
    ∷ codes "AudioOutput = true"
    ∷ codes "DeviceRedirection = true"
    ∷ codes "VideoRedirection = true"
    ∷ codes "CameraRedirection = true"
    ∷ codes "RemoteApp = false"
    ∷ codes "PassthroughIsBlacklist = true"
    ∷ codes "Passthrough ="
    ∷ codes "Intercept ="
    ∷ []
    ∷ codes "[Input]"
    ∷ codes "Keyboard = true"
    ∷ codes "Mouse = true"
    ∷ codes "Multitouch = true"
    ∷ []
    ∷ codes "[Security]"
    ∷ codes "ServerTlsSecurity = true"
    ∷ codes "ServerNlaSecurity = false"
    ∷ codes "ServerRdpSecurity = true"
    ∷ codes "ClientTlsSecurity = true"
    ∷ codes "ClientNlaSecurity = true"
    ∷ codes "ClientRdpSecurity = true"
    ∷ codes "ClientAllowFallbackToTls = true"
    ∷ []
    ∷ []

-- The template's lines.
unfoldable pub config_lines : ProxyConfig → List Text
unfolding itoa
config_lines c =
    codes "[Server]"
    ∷ setting (codes "Host") c.server_host
    ∷ setting (codes "Port") (itoa c.server_port)
    ∷ []
    ∷ codes "[Target]"
    ∷ codes "FixedTarget = true"
    ∷ setting (codes "Host") c.target_host
    ∷ setting (codes "Port") (itoa c.target_port)
    ∷ setting (codes "User") c.target_user
    ∷ setting (codes "Password") c.target_password
    ∷ setting (codes "Domain") c.target_domain
    ∷ (fixed_sections
        ++ (codes "[Certificates]"
            ∷ setting (codes "CertificateFile") c.certificate_file
            ∷ setting (codes "PrivateKeyFile") c.private_key_file
            ∷ []
            ∷ codes "[Clipboard]"
            ∷ codes "TextOnly = false"
            ∷ codes "MaxTextLength = 0"
            ∷ []))

-- The template, filled in: each line ends in a line feed.
unfoldable pub render : List Text → Text
render [] = []
render (l ∷ ls) = l ++ (b'\n' ∷ render ls)

unfoldable pub generate_config_bytes : Text → ℕ → TargetCredentials → Text
unfolding config_lines render proxy_config
generate_config_bytes cert_dir internal_port creds =
    render (config_lines (proxy_config cert_dir internal_port creds))

-- The session directories under their ids.
abbrev pub Directories : Type 0
Directories = GoMap Text (Option Text)

-- How far the operating system lets `WriteConfig` come: the directory cannot be made, the file
-- cannot be opened, the file takes only the text given, or all of it.
pub data WriteOutcome : Type 0 where
  no_directory no_file written : WriteOutcome
  cut_short : Text → WriteOutcome

unfoldable pub write_config :
    WriteOutcome → Text → Text → ℕ → TargetCredentials → Directories → Directories × Bool
unfolding generate_config_bytes
write_config no_directory cert_dir id internal_port creds dirs = (dirs, false)
write_config no_file cert_dir id internal_port creds dirs =
    (elim (lookup id dirs) [ none ↦ insert id none dirs | some d ↦ dirs ], false)
write_config (cut_short part) cert_dir id internal_port creds dirs =
    (insert id (some part) dirs, false)
write_config written cert_dir id internal_port creds dirs =
    (insert id (some (generate_config_bytes cert_dir internal_port creds)) dirs, true)

-- `os.Remove` of the file, if the system removes it.
unfoldable pub delete_config : Bool → Text → Directories → Directories
delete_config removes id dirs =
    if removes then elim (lookup id dirs) [ none ↦ dirs | some d ↦ insert id none dirs ] else dirs

-- How far `os.RemoveAll` comes: the directory is gone, only its file is, or nothing is.
pub data Removal : Type 0 where
  removed file_removed untouched : Removal

-- `os.RemoveAll` of the directory.
unfoldable pub cleanup_session : Removal → Text → Directories → Directories
unfolding delete_config
cleanup_session removed id dirs = delete id dirs
cleanup_session file_removed id dirs = delete_config true id dirs
cleanup_session untouched id dirs = dirs
