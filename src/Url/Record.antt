-- ===== src/Url/Record.antt =====
-- URL records and the tests on them. `opaquePath` holds exactly where the path is a string, so the
-- model's path tells.
use qjs_lws.Base.{
  ℕ, Bool, true, false, not, ◌&&◌, ◌||◌, Option, none, some, List, [], ◌∷◌, ◌++◌, map, Text,
  text_eq, leb, ◌==◌, if◌then◌else◌,
}
use qjs_lws.Text.{text, lower}
use qjs_lws.Url.Host.{Host, domain}

pub data UrlPath : Type 0 where
  segments : List Text → UrlPath
  opaque : Text → UrlPath

pub record UrlRecord : Type 0 where
  pub scheme : Text
  pub username : Text
  pub password : Text
  pub host : Option Host
  pub port : Option ℕ
  pub path : UrlPath
  pub query : Option Text
  pub fragment : Option Text

abbrev pub new_url_record : UrlRecord
new_url_record = record {
  scheme = [];
  username = [];
  password = [];
  host = none;
  port = none;
  path = segments [];
  query = none;
  fragment = none;
}

-- `null` and numbers compared by `===`.
unfoldable pub same_port : Option ℕ → Option ℕ → Bool
same_port none none = true
same_port none (some q) = false
same_port (some p) none = false
same_port (some p) (some q) = p == q

unfoldable pub default_port : Text → Option ℕ
default_port scheme =
    if text_eq scheme (text "ftp")
    then some 21
    else if text_eq scheme (text "http") || text_eq scheme (text "ws")
    then some 80
    else if text_eq scheme (text "https") || text_eq scheme (text "wss")
    then some 443
    else none

unfoldable pub is_special_scheme : Text → Bool
is_special_scheme scheme =
    text_eq scheme (text "ftp")
    || text_eq scheme (text "file")
    || text_eq scheme (text "http")
    || text_eq scheme (text "https")
    || text_eq scheme (text "ws")
    || text_eq scheme (text "wss")

abbrev pub is_special : UrlRecord → Bool
is_special url = is_special_scheme url.scheme

abbrev pub is_file : UrlRecord → Bool
is_file url = text_eq url.scheme (text "file")

unfoldable pub includes_credentials : UrlRecord → Bool
includes_credentials url = not (text_eq url.username []) || not (text_eq url.password [])

-- `host === null || host === ''`.
unfoldable pub no_host : Option Host → Bool
no_host none = true
no_host (some (domain s)) = text_eq s []
no_host (some h) = false

unfoldable pub cannot_have_username_password_port : UrlRecord → Bool
cannot_have_username_password_port url = no_host url.host || is_file url

unfoldable pub is_ascii_alpha : ℕ → Bool
is_ascii_alpha c = (leb b'A' c && leb c b'Z') || (leb b'a' c && leb c b'z')

unfoldable pub is_windows_drive_letter : Text → Bool
is_windows_drive_letter [] = false
is_windows_drive_letter (c ∷ []) = false
is_windows_drive_letter (c ∷ d ∷ []) = is_ascii_alpha c && (d == b':' || d == b'|')
is_windows_drive_letter (c ∷ d ∷ e ∷ s) = false

unfoldable pub is_normalized_windows_drive_letter : Text → Bool
is_normalized_windows_drive_letter [] = false
is_normalized_windows_drive_letter (c ∷ []) = false
is_normalized_windows_drive_letter (c ∷ d ∷ []) = is_ascii_alpha c && d == b':'
is_normalized_windows_drive_letter (c ∷ d ∷ e ∷ s) = false

-- The text from the pointer on.
unfoldable pub starts_with_windows_drive_letter : Text → Bool
starts_with_windows_drive_letter [] = false
starts_with_windows_drive_letter (c ∷ []) = false
starts_with_windows_drive_letter (c ∷ d ∷ []) = is_windows_drive_letter (c ∷ d ∷ [])
starts_with_windows_drive_letter (c ∷ d ∷ e ∷ s) =
    is_windows_drive_letter (c ∷ d ∷ []) && (e == b'/' || e == b'\\' || e == b'?' || e == b'#')

unfoldable pub is_single_dot_segment : Text → Bool
is_single_dot_segment buf = text_eq buf (text ".") || text_eq (map lower buf) (text "%2e")

unfoldable pub is_double_dot_segment : Text → Bool
is_double_dot_segment buf =
    let b = map lower buf in
    text_eq b (text "..")
    || text_eq b (text ".%2e")
    || text_eq b (text "%2e.")
    || text_eq b (text "%2e%2e")

-- `path.pop()`.
unfoldable pub pop : List Text → List Text
pop [] = []
pop (s ∷ []) = []
pop (s ∷ t ∷ ss) = s ∷ pop (t ∷ ss)

unfoldable pub only_drive : List Text → Bool
only_drive [] = false
only_drive (s ∷ []) = is_normalized_windows_drive_letter s
only_drive (s ∷ t ∷ ss) = false

-- No list operation is made on an opaque path.
unfoldable pub shorten_path : Bool → UrlPath → UrlPath
shorten_path file (opaque s) = opaque s
shorten_path file (segments ss) = if file && only_drive ss then segments ss else segments (pop ss)

unfoldable pub pop_path : UrlPath → UrlPath
pop_path (opaque s) = opaque s
pop_path (segments ss) = segments (pop ss)

unfoldable pub push_path : Text → UrlPath → UrlPath
push_path seg (opaque s) = opaque s
push_path seg (segments ss) = segments (ss ++ seg ∷ [])

unfoldable pub add_to_path : Text → UrlPath → UrlPath
add_to_path t (opaque s) = opaque (s ++ t)
add_to_path t (segments ss) = segments ss
