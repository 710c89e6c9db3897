-- ===== src/Web/Tests.antt =====
-- ProjectFiles/include/net.h: the web server on concrete requests.
use pico_rfu.Prelude.{
  negsuc, ℕ, ◌+◌, ◌≡◌, ◌≢◌, ◌↔◌, get_elem?, ◌⊎◌, refl, List, [], ◌∷◌, false, arith, ◌||◌, none,
}
use pico_rfu.Prelude.{some, pos, go, codes, same_bytes}
use Prim.Native.String.{String}
use pico_rfu.Web.Users.{
  User, users, user_of, authenticate, InTable, authenticate_sound, authenticate_complete,
}
use pico_rfu.Web.Router.{
  Body, Request, State, not_authorised, settings, settings_saved, new_strings,
}
use pico_rfu.Web.Router.{http_message, web_init}
use pico_rfu.Web.Routes.{
  MatchesGlobs, IsSettingsGet, IsSettingsSet, reply_of, http_message_stranger,
}
use pico_rfu.Web.Routes.{settings_get-set}
use pico_rfu.Web.Packed.{PackedFile, packed, packed_files, mg_unlist, mg_unpack, scmp}
use pico_rfu.Web.Packed.Lookup.{NoNul, found}
use pico_rfu.Web.Packed.Table.{no_nul-NoNul, packed_files-found}
use pico_rfu.Web.Sntp.{Sntp, sfn, polls, any_later, opened, sfn_times_out}

abbrev empty_body : Body
empty_body = record {
  json_log_enabled = none;
  json_log_level = none;
  json_brightness = none;
  json_device_name = none;
  json_level = none;
}

abbrev named_body : Body
named_body = record empty_body {
  json_log_level = some (negsuc 0);
  json_brightness = some (pos 300);
  json_device_name = some (codes "stage");
}

-- The numbers that do not fit come back as 255 and 44.
named_reply : ((reply_of named_body).log_level ≡ 255) × ((reply_of named_body).brightness ≡ 44)
named_reply = (refl, refl)

-- A request for an address below /api/, with a token alone.
abbrev request_of : String → List ℕ → Body → Request
request_of uri token body = record {
  user = [];
  pass = token;
  match_uri =
      λ glob. same_bytes (codes glob) (codes uri) || same_bytes (codes glob) (codes "/api/#");
  body = body;
}

abbrev setter : Request
setter = request_of "/api/settings/set" (codes "user1_token") named_body

abbrev getter : Request
getter = request_of "/api/settings/get" (codes "admin_token") empty_body

abbrev stranger : Request
stranger = request_of "/api/settings/set" (codes "guess") named_body

setter-MatchesGlobs : MatchesGlobs setter
setter-MatchesGlobs = record {
  login = λ e. refl;
  logout = λ e. refl;
  debug = λ e. refl;
  stats = λ e. refl;
  events = λ e. refl;
  settings_get = λ e. refl;
  settings_set = λ e. refl;
}

stranger-MatchesGlobs : MatchesGlobs stranger
stranger-MatchesGlobs = record {
  login = λ e. refl;
  logout = λ e. refl;
  debug = λ e. refl;
  stats = λ e. refl;
  events = λ e. refl;
  settings_get = λ e. refl;
  settings_set = λ e. refl;
}

setter-IsSettingsSet : IsSettingsSet setter
setter-IsSettingsSet = record {
  not_login = refl;
  not_logout = refl;
  not_debug = refl;
  not_stats = refl;
  not_events = refl;
  not_get = refl;
  set = refl;
}

getter-IsSettingsGet : IsSettingsGet getter
getter-IsSettingsGet = record {
  not_login = refl;
  not_logout = refl;
  not_debug = refl;
  not_stats = refl;
  not_events = refl;
  get = refl;
}

abbrev user1 : User
user1 = user_of (codes "user1") (codes "user1") (codes "user1_token")

user1_by_token : authenticate users [] (codes "user1_token") ≡ some user1
unfolding authenticate pico_rfu.Web.Users.first_user
user1_by_token = refl

admin_by_token :
    authenticate users [] (codes "admin_token")
    ≡ some (user_of (codes "admin") (codes "admin") (codes "admin_token"))
unfolding authenticate pico_rfu.Web.Users.first_user
admin_by_token = refl

setter_known : authenticate users [] (codes "user1_token") ≢ none
setter_known e = cc (e, user1_by_token)

getter_known : authenticate users [] (codes "admin_token") ≢ none
getter_known e = cc (e, admin_by_token)

stranger_unknown : authenticate users [] (codes "guess") ≡ none
unfolding authenticate pico_rfu.Web.Users.first_user
stranger_unknown = refl

settings_get-set_example :
    (s' : State) × (http_message (pos 3) setter (web_init (pos 2)) ≡ go (s', settings_saved))
    × (http_message (pos 3) getter s' ≡ go (s', settings (reply_of named_body)))
    × (s'.live_strings ≡ (web_init (pos 2)).live_strings + new_strings (some (codes "stage")))
settings_get-set_example =
    settings_get-set (pos 3) setter getter (web_init (pos 2)) setter-IsSettingsSet
      getter-IsSettingsGet setter_known getter_known

http_message_stranger_example :
    http_message (pos 3) stranger (web_init (pos 2)) ≡ go (web_init (pos 2), not_authorised)
http_message_stranger_example =
    http_message_stranger (pos 3) stranger (web_init (pos 2)) stranger-MatchesGlobs stranger_unknown

authenticate_sound_example :
    InTable user1 users
    × ((([] ≡ codes "user1")
          × (codes "user1_token" ≡ codes "user1")
          × (◌≢◌ {A = List ℕ} [] [])
          × (codes "user1_token" ≢ []))
        ⊎ ((◌≡◌ {A = List ℕ} [] []) × (codes "user1_token" ≡ codes "user1_token")))
authenticate_sound_example = authenticate_sound users [] (codes "user1_token") user1 user1_by_token

abbrev main_css : PackedFile
main_css = packed (codes "/web_root/main.css") (98 ∷ 99 ∷ 0 ∷ []) 1685038355

abbrev site : List PackedFile
site =
    packed_files (1 ∷ 0 ∷ []) (2 ∷ 0 ∷ []) main_css.data_bytes (4 ∷ 0 ∷ []) (5 ∷ 0 ∷ [])
      (6 ∷ 0 ∷ [])

no_nul : NoNul main_css.name
no_nul = no_nul-NoNul main_css.name refl

packed_files-found_example :
    (mg_unpack site main_css.name ≡ some (98 ∷ 99 ∷ 0 ∷ [], 2, 1685038355)) ↔ (
      (i : ℕ) × (f : PackedFile) × (get_elem? site i ≡ some f)
      × (mg_unlist site i ≡ go (some main_css.name))
      × ((98 ∷ 99 ∷ 0 ∷ [], 2, 1685038355) ≡ found f))
packed_files-found_example =
    packed_files-found (1 ∷ 0 ∷ []) (2 ∷ 0 ∷ []) main_css.data_bytes (4 ∷ 0 ∷ []) (5 ∷ 0 ∷ [])
      (6 ∷ 0 ∷ []) main_css.name (98 ∷ 99 ∷ 0 ∷ [], 2, 1685038355) no_nul

-- The third file.
css_found : mg_unpack site main_css.name ≡ some (98 ∷ 99 ∷ 0 ∷ [], 2, 1685038355)
unfolding mg_unpack mg_unlist scmp
css_found = refl

abbrev idle : Sntp
idle = record { expiration_time = 0; is_closing = false; boot_timestamp = 7 }

-- Polls before and after the limit of 3 seconds.
sfn_times_out_example :
    ((polls (2000 ∷ 4001 ∷ []) (sfn 1000 opened idle)).is_closing
      ≡ any_later 4000 (2000 ∷ 4001 ∷ []))
    × ((polls (2000 ∷ 4001 ∷ []) (sfn 1000 opened idle)).boot_timestamp ≡ 7)
sfn_times_out_example = sfn_times_out 1000 (2000 ∷ 4001 ∷ []) idle (omega arith) refl
