-- ===== src/Url/Serialize.antt =====
-- The serializers of URL records.
use qjs_lws.Base.{
  ℕ, Bool, true, false, not, ◌&&◌, Option, none, some, List, [], ◌∷◌, ◌++◌, Text, text_eq,
  if◌then◌else◌,
}
use qjs_lws.Text.{text, number_text}
use qjs_lws.Url.Native.{Native}
use qjs_lws.Url.Host.{Host, serialize_host}
use qjs_lws.Url.Record.{
  UrlRecord, UrlPath, segments, opaque, is_special, is_file, includes_credentials,
}

-- `path.map(seg => '/' + seg).join('')`.
unfoldable pub join_segments : List Text → Text
join_segments [] = []
join_segments (s ∷ ss) = b'/' ∷ (s ++ join_segments ss)

unfoldable pub serialize_path : UrlPath → Text
serialize_path (opaque s) = s
serialize_path (segments ss) = join_segments ss

-- A text behind its mark, where there is one.
unfoldable pub with_mark : ℕ → Option Text → Text
with_mark mark none = []
with_mark mark (some s) = mark ∷ s

unfoldable pub port_text : Option ℕ → Text
port_text none = []
port_text (some port) = b':' ∷ number_text 10 port

unfoldable pub credentials_text : UrlRecord → Text
credentials_text url =
    if includes_credentials url
    then url.username
      ++ ((if text_eq url.password [] then [] else b':' ∷ url.password) ++ b'@' ∷ [])
    else []

unfoldable pub authority_text : Native → UrlRecord → Option Host → Text
authority_text native url none = []
authority_text native url (some host) =
    text "//" ++ (credentials_text url ++ (serialize_host native host ++ port_text url.port))

-- A path of two segments or more whose first is empty would read as a host.
unfoldable pub starts_empty : UrlPath → Bool
starts_empty (segments ([] ∷ s ∷ ss)) = true
starts_empty other = false

unfoldable pub path_guard : Option Host → UrlPath → Text
path_guard none path = if starts_empty path then text "/." else []
path_guard (some host) path = []

unfoldable pub serialize_url : Native → UrlRecord → (exclude_fragment : Bool) → Text
serialize_url native url exclude_fragment =
    url.scheme
    ++ (text ":"
        ++ (authority_text native url url.host
            ++ (path_guard url.host url.path
                ++ (serialize_path url.path
                    ++ (with_mark b'?' url.query
                        ++ (if exclude_fragment then [] else with_mark b'#' url.fragment))))))

-- `serializeHost(null)` is `null`, and `'//' + null` writes that word.
unfoldable pub host_text : Native → Option Host → Text
host_text native none = text "null"
host_text native (some host) = serialize_host native host

unfoldable pub serialize_origin : Native → UrlRecord → Text
serialize_origin native url =
    if is_special url && not (is_file url)
    then url.scheme ++ (text "://" ++ (host_text native url.host ++ port_text url.port))
    else text "null"
