-- ===== src/Project/Banners.antt =====
-- The messages that frontend/src/App.tsx shows, pushError and its companions.
pub mod Few
use my_paraview_web.Common.{
  ℕ, zero, suc, ◌-◌, Bool, true, false, not, List, [], ◌∷◌, ◌++◌, filter, drop, length,
  if◌then◌else◌,
}
use my_paraview_web.Common.Eq.{Text, codes, contains, Units_eq, ◌===◌}

-- `previous.slice(-2)`
abbrev pub last_two : List Text → List Text
last_two errors = drop (length errors - 2) errors

unfoldable pub push_error : Text → List Text → List Text
push_error message previous =
    if contains previous message then previous else last_two previous ++ message ∷ []

abbrev pub begins : Text → Text → Bool
begins [] t = true
begins (p ∷ ps) [] = false
begins (p ∷ ps) (c ∷ cs) = if (p ∷ []) === (c ∷ []) then begins ps cs else false

-- `${prefix}: ${text}`
abbrev pub prefixed : Text → Text → Text
prefixed prefix t = prefix ++ (codes ": " ++ t)

unfoldable pub clear_errors_by_prefix : Text → List Text → List Text
clear_errors_by_prefix prefix previous = filter (λ e. not (begins (prefix ++ codes ":") e)) previous

-- `previous.filter((_, position) => position !== index)`
unfoldable pub dismiss_error : ℕ → List Text → List Text
dismiss_error index [] = []
dismiss_error zero (e ∷ es) = es
dismiss_error (suc index) (e ∷ es) = e ∷ dismiss_error index es

pub data BannerEvent : Type 0 where
  pushed cleared_prefix : Text → BannerEvent
  dismissed : ℕ → BannerEvent
  cleared : BannerEvent

unfoldable pub banner_step : BannerEvent → List Text → List Text
unfolding push_error clear_errors_by_prefix dismiss_error
banner_step (pushed message) errors = push_error message errors
banner_step (cleared_prefix prefix) errors = clear_errors_by_prefix prefix errors
banner_step (dismissed index) errors = dismiss_error index errors
banner_step cleared errors = []

unfoldable pub banner_run : List BannerEvent → List Text → List Text
unfolding banner_step
banner_run [] errors = errors
banner_run (e ∷ es) errors = banner_run es (banner_step e errors)
