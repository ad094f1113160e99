-- ===== src/Connection/Tests.antt =====
-- Connections on concrete targets, where a URL is a text that begins with http://.
use my_paraview_web.Common.{
  ℕ, ◌≡◌, refl, false, Option, none, some, List, [], ◌∷◌, if◌then◌else◌, arith,
}
use my_paraview_web.Common.Eq.{Text, codes}
use my_paraview_web.Common.Result.{Result, ok}
use my_paraview_web.Connection.{
  Connection, connected, Event, connect, disconnect, health_answered, capabilities_answered,
  connection_run, connection_step, started,
}
use my_paraview_web.Connection.Mode.{
  Url, ModeEnvironment, Thrown, begins_with, normalize_api_base, resolve_connection_config,
}
use my_paraview_web.Connection.Laws.{IsSettled, connection_run-IsSettled}
use my_paraview_web.Connection.Superseded.{IsUnchanged, disconnected-late}

abbrev http_url : Text → Option Url
http_url t =
    if begins_with (codes "http://") t
    then some (record { protocol = codes "http:"; search = []; hash = []; href = t })
    else none

-- A build with neither a mode nor a base.
abbrev bare : ModeEnvironment
bare = record { app_mode = none; api_base = none; dev = false }

abbrev page : Connection ℕ
page = started http_url (resolve_connection_config http_url bare) none (some none)

abbrev clicks : List (Event ℕ)
clicks =
    connect (codes " http://a/ ")
    ∷ health_answered 1 (ok tt)
    ∷ connect (codes "nothing")
    ∷ capabilities_answered 1 (some 7)
    ∷ []

after_clicks :
    ((connection_run http_url page clicks).status ≡ connected)
    × ((connection_run http_url page clicks).api_base ≡ some (codes "http://a"))
    × ((connection_run http_url page clicks).epoch ≡ 1)
unfolding connection_run started resolve_connection_config normalize_api_base
after_clicks = (refl, refl, refl)

normalize_api_base_slashes : normalize_api_base http_url (codes " /api// ") ≡ some (codes "/api")
unfolding normalize_api_base
normalize_api_base_slashes = refl

connection_run-IsSettled_example : IsSettled (connection_run http_url page clicks)
connection_run-IsSettled_example = connection_run-IsSettled http_url bare none (some none) clicks

one_attempt : (connection_run http_url page clicks).attempt ≡ 1
unfolding connection_run started resolve_connection_config normalize_api_base
one_attempt = refl

disconnected-late_example :
    let t =
      connection_run http_url
        (connection_step http_url (connection_run http_url page clicks) disconnect)
        [] in
    ((r : Result Thrown (Unit {0}))
      → IsUnchanged t (connection_step http_url t (health_answered 1 r)))
    × ((r : Option ℕ) → IsUnchanged t (connection_step http_url t (capabilities_answered 1 r)))
disconnected-late_example =
    disconnected-late http_url (connection_run http_url page clicks) [] 1
      (omega (arith, one_attempt))
