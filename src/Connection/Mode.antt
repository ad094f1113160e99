-- ===== src/Connection/Mode.antt =====
-- frontend/src/lib/appMode.ts and setApiBase of frontend/src/api.ts. What `new URL` makes of a text is
-- a parameter, `none` where it throws; so is the storage, `none` where it cannot be used.
pub mod Laws
use my_paraview_web.Common.{
  ℕ, ◌+◌, Bool, true, false, not, ◌&&◌, ◌||◌, Option, none, some, List, [], ◌∷◌, map, any, is_empty,
  ◌==◌, leb, if◌then◌else◌,
}
use my_paraview_web.Common.Eq.{Text, codes, ◌===◌, Units_eq}
use my_paraview_web.Csv.Points.{trim}

pub data AppMode : Type 0 where
  static server : AppMode

pub data ConfigSource : Type 0 where
  env_static env_api_base env_server dev_default static_default : ConfigSource

pub record ConnectionConfig : Type 0 where
  pub mode : AppMode
  pub api_base : Option Text
  pub auto_connect : Bool
  pub source : ConfigSource

pub record ModeEnvironment : Type 0 where
  pub app_mode : Option Text
  pub api_base : Option Text
  pub dev : Bool

abbrev pub dev_api_base : Text
dev_api_base = codes "http://localhost:8000"

-- What the code reads of a URL, and its text.
pub record Url : Type 0 where
  pub protocol : Text
  pub search : Text
  pub hash : Text
  pub href : Text

-- `toLowerCase`, as far as it can yield one of the words that it is compared with
abbrev pub lower_unit : ℕ → ℕ
lower_unit c = if leb b'A' c && leb c b'Z' then c + 32 else c

abbrev pub lower : Text → Text
lower = map lower_unit

abbrev pub text_or_empty : Option Text → Text
text_or_empty none = []
text_or_empty (some t) = t

-- `replace(/\/+$/, "")`
pub strip_slashes : Text → Text
strip_slashes [] = []
strip_slashes (c ∷ cs) =
    let rest = strip_slashes cs in if c == b'/' && is_empty rest then [] else c ∷ rest

-- `… || "/"`
abbrev pub or_slash : Text → Text
or_slash [] = codes "/"
or_slash (c ∷ cs) = c ∷ cs

abbrev pub base_of_url : Option Url → Option Text
base_of_url none = none
base_of_url (some url) =
    if not (url.protocol === codes "http:") && not (url.protocol === codes "https:")
    then none
    else (if not (is_empty url.search) || not (is_empty url.hash)
        then none
        else some (strip_slashes url.href))

-- `!text`: the empty text is none too
abbrev pub non_empty : Option Text → Option Text
non_empty none = none
non_empty (some t) = if is_empty t then none else some t

-- `setApiBase`, as it stands behind the client; the empty text is none too
abbrev pub client_base_of : Option Text → Option Text
client_base_of none = none
client_base_of (some t) = if is_empty t then none else some (strip_slashes t)

module _ (parse_url : Text → Option Url) where
  abbrev pub base_of_trimmed : Text → Option Text
  base_of_trimmed [] = none
  base_of_trimmed (c ∷ cs) =
      if c == b'/'
      then some (or_slash (strip_slashes (c ∷ cs)))
      else base_of_url (parse_url (c ∷ cs))

  unfoldable pub normalize_api_base : Text → Option Text
  unfolding strip_slashes trim
  normalize_api_base value = base_of_trimmed (trim value)

  -- `normalizeApiBase(apiBase) ?? apiBase`
  abbrev pub normal_or_given : Option Text → Text → Text
  normal_or_given none given = given
  normal_or_given (some base) given = base

  unfoldable pub resolve_connection_config : ModeEnvironment → ConnectionConfig
  unfolding normalize_api_base
  resolve_connection_config env =
      let mode = lower (trim (text_or_empty env.app_mode)) in
      let api_base = trim (text_or_empty env.api_base) in
      if mode === codes "static"
      then record { mode = static; api_base = none; auto_connect = false; source = env_static }
      else (if not (is_empty api_base)
          then record {
            mode = server;
            api_base = some (normal_or_given (normalize_api_base api_base) api_base);
            auto_connect = true;
            source = env_api_base;
          }
          else (if mode === codes "server"
              then record {
                mode = server;
                api_base = some dev_api_base;
                auto_connect = true;
                source = env_server;
              }
              else (if env.dev
                  then record {
                    mode = server;
                    api_base = some dev_api_base;
                    auto_connect = true;
                    source = dev_default;
                  }
                  else record {
                    mode = static;
                    api_base = none;
                    auto_connect = false;
                    source = static_default;
                  })))

  -- `readStoredApiBase`: a storage with what it holds under the key
  abbrev pub base_of_stored : Option Text → Option Text
  base_of_stored none = none
  base_of_stored (some stored) = if is_empty stored then none else normalize_api_base stored

  abbrev pub read_stored_api_base : Option (Option Text) → Option Text
  read_stored_api_base none = none
  read_stored_api_base (some item) = base_of_stored item

-- `writeStoredApiBase` of a base
abbrev pub item_of : Text → Option Text
item_of base = if is_empty base then none else some base

abbrev pub write_stored_api_base : Option (Option Text) → Text → Option (Option Text)
write_stored_api_base none base = none
write_stored_api_base (some item) base = some (item_of base)

pub data FailureKind : Type 0 where
  unreachable http timeout invalid_url unknown : FailureKind

-- What the code asks of an error: whether it has a status, whether it is a DOMException that says
-- that the call was aborted or timed out, and its message.
pub record Thrown : Type 0 where
  pub has_status : Bool
  pub is_abort : Bool
  pub message : Text
  pub printed : Text

abbrev pub begins_with : Text → Text → Bool
begins_with [] t = true
begins_with (p ∷ ps) [] = false
begins_with (p ∷ ps) (c ∷ cs) = p == c && begins_with ps cs

abbrev pub has_part : Text → Text → Bool
has_part part [] = begins_with part []
has_part part (c ∷ cs) = begins_with part (c ∷ cs) || has_part part cs

-- `classifyConnectionError`
unfoldable pub classify_connection_error : Thrown → FailureKind
classify_connection_error e =
    if e.has_status
    then http
    else (if e.is_abort
        then timeout
        else (if any (λ part. has_part part (lower e.message))
              (codes "failed to fetch"
                ∷ codes "networkerror"
                ∷ codes "load failed"
                ∷ codes "network request failed"
                ∷ [])
            then unreachable
            else unknown))
