-- ===== src/Web/Router.antt =====
-- ProjectFiles/include/net.h: the settings and the request handlers. Of mongoose enter: what
-- `mg_http_creds` reads, whether `mg_http_match_uri` matches the request, and what the
-- `mg_json_get` functions find in the body. A response stands for the call of `mg_http_reply` or
-- `mg_http_serve_dir`.
use pico_rfu.Prelude.{ℕ, ◌+◌, List, [], ◌∷◌, Bool, true, false, ◌&&◌, Option, none, some, Flow, go}
use pico_rfu.Prelude.{◌>>=◌, or_fault, ℤ, pos, to_u8, codes, if◌then◌else◌}
use mathlib.Core.Option.{get_or}
use Prim.Native.String.{String}
use pico_rfu.Web.Users.{User, users, authenticate}
use pico_rfu.Web.Events.{Event, s_events}

pub record Settings : Type 0 where
  pub log_enabled : Bool
  pub log_level : ℤ
  pub brightness : ℤ
  pub device_name : Option (List ℕ)

-- The body: what is found at each path, if anything.
pub record Body : Type 0 where
  pub json_log_enabled : Option Bool
  pub json_log_level : Option ℤ
  pub json_brightness : Option ℤ
  pub json_device_name : Option (List ℕ)
  pub json_level : Option ℤ

pub record Request : Type 0 where
  pub user : List ℕ
  pub pass : List ℕ
  pub match_uri : String → Bool
  pub body : Body

-- The variables of the file, the level of `mg_log_set`, and how many strings on the heap were
-- allocated for device names and not freed.
pub record State : Type 0 where
  pub s_settings : Settings
  pub log_level : ℤ
  pub live_strings : ℕ

-- What the settings are printed as.
pub record SettingsReply : Type 0 where
  pub log_enabled : Bool
  pub log_level : ℕ
  pub brightness : ℕ
  pub device_name : Option (List ℕ)

pub data Response : Type 0 where
  not_authorised : Response
  logged_in : List ℕ → List ℕ → Response
  logged_out : Response
  debug_level_set : ℤ → Response
  stats : List ℕ → Response
  events : List Event → Response
  settings : SettingsReply → Response
  settings_saved : Response
  serve_dir : Response

abbrev pub points : List ℕ
points = 21 ∷ 22 ∷ 22 ∷ 19 ∷ 18 ∷ 20 ∷ 23 ∷ 23 ∷ 22 ∷ 22 ∷ 22 ∷ 23 ∷ 22 ∷ []

-- The token goes into the cookie, the name into the body; a null user is a null pointer read.
unfoldable pub handle_login : Option User → State → Flow (State × Response)
handle_login u s = do v ← or_fault u; go (s, logged_in v.access_token v.name)

unfoldable pub handle_logout : State → State × Response
handle_logout s = (s, logged_out)

-- `mg_ll_debug` is mongoose's MG_LL_DEBUG.
unfoldable pub handle_debug : ℤ → Body → State → State × Response
handle_debug mg_ll_debug body s =
    let level = get_or body.json_level mg_ll_debug in
    (record s { log_level = level }, debug_level_set level)

unfoldable pub handle_stats_get : State → State × Response
handle_stats_get s = (s, stats points)

unfoldable pub handle_events_get : State → State × Response
handle_events_get s = (s, events s_events)

-- A name in the body is a new string; `free` is called on the null pointer of the new settings.
abbrev pub new_strings : Option (List ℕ) → ℕ
new_strings none = 0
new_strings (some name) = 1

unfoldable pub handle_settings_set : Body → State → State × Response
handle_settings_set body s = (
  record {
    s_settings = record {
      log_enabled = get_or body.json_log_enabled false;
      log_level = get_or body.json_log_level (pos 0);
      brightness = get_or body.json_brightness (pos 0);
      device_name = body.json_device_name;
    };
    log_level = s.log_level;
    live_strings = s.live_strings + new_strings body.json_device_name;
  },
  settings_saved,
)

-- The conversion `%hhu` prints a number as an `unsigned char`.
unfoldable pub handle_settings_get : State → State × Response
handle_settings_get s = (
  s,
  settings (record {
    log_enabled = s.s_settings.log_enabled;
    log_level = to_u8 s.s_settings.log_level;
    brightness = to_u8 s.s_settings.brightness;
    device_name = s.s_settings.device_name;
  }),
)

abbrev pub is_none : Option User → Bool
is_none none = true
is_none (some u) = false

-- The case MG_EV_HTTP_MSG of `fn`.
unfoldable pub http_message : ℤ → Request → State → Flow (State × Response)
http_message mg_ll_debug r s =
    let u = authenticate users r.user r.pass in
    if r.match_uri "/api/#" && is_none u
    then go (s, not_authorised)
    else if r.match_uri "/api/login"
    then handle_login u s
    else if r.match_uri "/api/logout"
    then go (handle_logout s)
    else if r.match_uri "/api/debug"
    then go (handle_debug mg_ll_debug r.body s)
    else if r.match_uri "/api/stats/get"
    then go (handle_stats_get s)
    else if r.match_uri "/api/events/get"
    then go (handle_events_get s)
    else if r.match_uri "/api/settings/get"
    then go (handle_settings_get s)
    else if r.match_uri "/api/settings/set"
    then go (handle_settings_set r.body s)
    else go (s, serve_dir)

pub data MgEvent : Type 0 where
  accept : MgEvent
  http_msg : Request → MgEvent
  other_event : MgEvent

-- `fn`. Its `fn_data` is null, so that an accepted connection gets no TLS.
unfoldable pub handle : ℤ → MgEvent → State → Flow (State × Option Response)
handle mg_ll_debug accept s = go (s, none)
handle mg_ll_debug (http_msg r) s = do
  (s', response) ← http_message mg_ll_debug r s
  go (s', some response)
handle mg_ll_debug other_event s = go (s, none)

-- `web_init`: the settings with which the server starts listening, at mongoose's log level.
unfoldable pub web_init : ℤ → State
web_init level = record {
  s_settings = record {
    log_enabled = true;
    log_level = pos 1;
    brightness = pos 57;
    device_name = some (codes "My Device");
  };
  log_level = level;
  live_strings = 1;
}
