-- ===== src/Web/Routes.antt =====
-- Who reaches which handler, and what the handlers change.
use pico_rfu.Prelude.{◌+◌, ◌≡◌, ◌≢◌, ◌⊎◌, inl, inr, refl, true, false}
use pico_rfu.Prelude.{none, arith, go, fault, ℤ, pos, to_u8}
use pico_rfu.Prelude.{if◌then◌else◌, Option-cases}
use mathlib.Core.Option.{get_or}
use pico_rfu.Web.Users.{users, authenticate}
use pico_rfu.Web.Router.{State, SettingsReply, Request, Response, Body, http_message}
use pico_rfu.Web.Router.{
  not_authorised, serve_dir, settings, settings_saved, handle_login, handle_logout,
}
use pico_rfu.Web.Router.{handle_stats_get, handle_events_get, handle_settings_get}
use pico_rfu.Web.Router.{handle_settings_set, new_strings}

-- `mg_http_match_uri`: what matches a path below /api/ matches "/api/#", where # stands for any
-- characters.
pub record MatchesGlobs (r : Request) : Type 0 where
  pub login : r.match_uri "/api/login" ≡ true → r.match_uri "/api/#" ≡ true
  pub logout : r.match_uri "/api/logout" ≡ true → r.match_uri "/api/#" ≡ true
  pub debug : r.match_uri "/api/debug" ≡ true → r.match_uri "/api/#" ≡ true
  pub stats : r.match_uri "/api/stats/get" ≡ true → r.match_uri "/api/#" ≡ true
  pub events : r.match_uri "/api/events/get" ≡ true → r.match_uri "/api/#" ≡ true
  pub settings_get : r.match_uri "/api/settings/get" ≡ true → r.match_uri "/api/#" ≡ true
  pub settings_set : r.match_uri "/api/settings/set" ≡ true → r.match_uri "/api/#" ≡ true

-- A request that authenticates nobody, if its address matches /api/# whenever it matches a route
-- below, changes nothing, and gets a refusal below /api/ and a file elsewhere.
pub http_message_stranger :
    (level : ℤ) (r : Request) (s : State)
    → MatchesGlobs r
    → authenticate users r.user r.pass ≡ none
    → http_message level r s ≡ go (s, if r.match_uri "/api/#" then not_authorised else serve_dir)
unfolding http_message
http_message_stranger level r s m h = ground (arith, h, m)

-- No request makes the handler read a null pointer.
pub http_message-ne_fault :
    (level : ℤ) (r : Request) (s : State) → MatchesGlobs r → http_message level r s ≢ fault
unfolding http_message handle_login
http_message-ne_fault level r s m = elim (Option-cases (authenticate users r.user r.pass)) [
  | inl e ↦ ground (arith, e, http_message_stranger level r s m e)
  | inr (u, e) ↦ ground (arith, e)
]

-- Only requests that match /api/debug or /api/settings/set change anything.
pub http_message_changes :
    (level : ℤ) (r : Request) (s s' : State) (response : Response)
    → http_message level r s ≡ go (s', response)
    → (s' ≡ s) ⊎ ((r.match_uri "/api/debug" ≡ true) ⊎ (r.match_uri "/api/settings/set" ≡ true))
unfolding http_message handle_login handle_logout handle_stats_get handle_events_get
    handle_settings_get
http_message_changes level r s s' response h = ground (arith, h)

-- The routes of the two settings handlers and of no other.
pub record IsSettingsGet (r : Request) : Type 0 where
  pub not_login : r.match_uri "/api/login" ≡ false
  pub not_logout : r.match_uri "/api/logout" ≡ false
  pub not_debug : r.match_uri "/api/debug" ≡ false
  pub not_stats : r.match_uri "/api/stats/get" ≡ false
  pub not_events : r.match_uri "/api/events/get" ≡ false
  pub get : r.match_uri "/api/settings/get" ≡ true

pub record IsSettingsSet (r : Request) : Type 0 where
  pub not_login : r.match_uri "/api/login" ≡ false
  pub not_logout : r.match_uri "/api/logout" ≡ false
  pub not_debug : r.match_uri "/api/debug" ≡ false
  pub not_stats : r.match_uri "/api/stats/get" ≡ false
  pub not_events : r.match_uri "/api/events/get" ≡ false
  pub not_get : r.match_uri "/api/settings/get" ≡ false
  pub set : r.match_uri "/api/settings/set" ≡ true

-- The settings of a body as they are printed.
abbrev pub reply_of : Body → SettingsReply
reply_of body = record {
  log_enabled = get_or body.json_log_enabled false;
  log_level = to_u8 (get_or body.json_log_level (pos 0));
  brightness = to_u8 (get_or body.json_brightness (pos 0));
  device_name = body.json_device_name;
}

settings_set_lem :
    (level : ℤ) (r : Request) (s : State)
    → IsSettingsSet r
    → authenticate users r.user r.pass ≢ none
    → http_message level r s ≡ go (handle_settings_set r.body s)
unfolding http_message
settings_set_lem level r s route known = ground arith

settings_get_lem :
    (level : ℤ) (r : Request) (s : State)
    → IsSettingsGet r
    → authenticate users r.user r.pass ≢ none
    → http_message level r s ≡ go (handle_settings_get s)
unfolding http_message
settings_get_lem level r s route known = ground arith

-- The settings that a user sets are what a user gets next, by requests that match these two routes
-- and no earlier one: the flag and the name of the body, its numbers modulo 256, and false, 0 or no
-- name for what the body leaves out. Of the string that held the old name nothing is freed: the heap
-- has one string more for each name that is set.
pub settings_get-set :
    (level : ℤ) (r q : Request) (s : State)
    → IsSettingsSet r
    → IsSettingsGet q
    → authenticate users r.user r.pass ≢ none
    → authenticate users q.user q.pass ≢ none
    → (s' : State) × (http_message level r s ≡ go (s', settings_saved))
      × (http_message level q s' ≡ go (s', settings (reply_of r.body)))
      × (s'.live_strings ≡ s.live_strings + new_strings r.body.json_device_name)
unfolding handle_settings_set handle_settings_get
settings_get-set level r q s set get known known' = (
  (handle_settings_set r.body s).0,
  settings_set_lem level r s set known,
  settings_get_lem level q (handle_settings_set r.body s).0 get known',
  refl,
)
