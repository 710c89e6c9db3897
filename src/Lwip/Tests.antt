-- ===== src/Lwip/Tests.antt =====
-- A small lwIP: any number of control blocks, one packet that came in, one that can be filled, and memory for any number.
use pico_rfu.Prelude.{
  ℕ, ◌+◌, ◌-◌, ◌≡◌, refl, ap, sym, ◌∙◌, ◌≢◌, ◌==◌, if◌then◌else◌, ℤ, List, [], ◌∷◌, Option, none,
  some, arith, length, take, length-take,
}
use pico_rfu.Lwip.{Lwip, Lawful, Registers, Callback, Datagram, err_ok}

pub record Stack : Type 0 where
  pub live : ℕ
  pub sent : List Datagram
  pub filled : List ℕ
  pub incoming : List ℕ
  pub next : ℕ
  pub callbacks : ℕ → Option Callback
  pub ports : ℕ → Option ℕ

abbrev pub sent_by : List ℕ → List ℕ → ℕ → Stack → Stack
sent_by bytes dest port w = record w {
  sent = record { bytes = bytes; dest = dest; port = port } ∷ w.sent;
}

-- A map with a value at a key.
abbrev pub at_key : {A : Type 0} → ℕ → A → (ℕ → Option A) → ℕ → Option A
at_key k a m v = if v == k then some a else m v

abbrev pub bound : Option ℕ → ℕ → Stack → Stack
bound none port w = w
bound (some u) port w = record w { ports = at_key u port w.ports }

abbrev pub small_lwip : Lwip
small_lwip = record {
  World = Stack;
  Pcb = ℕ;
  Pbuf = ℕ;
  Netif = ℕ;
  udp_new = λ w. (some w.next, record w { next = w.next + 1 });
  udp_recv = λ u c w. record w { callbacks = at_key u c w.callbacks };
  udp_remove = λ u w. w;
  udp_bind = λ u a port w. (err_ok, bound u port w);
  udp_sendto = λ u p dest port w. (err_ok, sent_by w.filled dest port w);
  udp_sendto_if = λ u p dest port nif w. (err_ok, sent_by w.filled dest port w);
  ip_current_input_netif = λ w. some 0;
  pbuf_alloc = λ n w. (some 2, record w { live = w.live + 1 });
  pbuf_free = λ p w. record w { live = w.live - 1 };
  tot_len = λ p w. length w.incoming;
  pbuf_copy_partial = λ p n w. take n w.incoming;
  fill_payload = λ p xs w. record w { filled = xs };
}

-- There is memory for every packet.
pub allocates : (n : ℕ) (w w' : Stack) → small_lwip.pbuf_alloc n w ≡ (none, w') → ⊥
allocates n w w' e = cc

abbrev pub small_laws : Lawful small_lwip
small_laws = record {
  live = λ w. w.live;
  sent = λ w. w.sent;
  payload = λ p w. w.filled;
  length-copy = λ p n w. omega (arith, length-take n w.incoming);
  live-alloc = λ n w w' p e.
      ap (λ (r : Option ℕ × Stack). r.1.live) {x = (some p, w')}
        {y = (some 2, record w { live = w.live + 1 })} (sym e);
  live-no_alloc = λ n w w' e. absurd (allocates n w w' e);
  live-free = λ p w. refl;
  live-fill = λ p xs w. refl;
  live-sendto = λ u p dest port w. refl;
  live-sendto_if = λ u p dest port nif w. refl;
  sent-alloc = λ n w. refl;
  sent-free = λ p w. refl;
  sent-fill = λ p xs w. refl;
  sent-sendto = λ u p dest port w. refl;
  sent-sendto_if = λ u p dest port nif w. refl;
  payload-fill = λ xs w w' p e. refl;
}

abbrev pub with_packet : List ℕ → Stack
with_packet bytes = record {
  live = 1;
  sent = [];
  filled = [];
  incoming = bytes;
  next = 1;
  callbacks = λ v. none;
  ports = λ v. none;
}

pub at_key_self : {A : Type 0} (k : ℕ) (a : A) (m : ℕ → Option A) → at_key k a m k ≡ some a
at_key_self k a m = ground arith

pub at_key_other : {A : Type 0} (k v : ℕ) (a : A) (m : ℕ → Option A) → v ≢ k → at_key k a m v ≡ m v
at_key_other k v a m h = ground arith

abbrev pub small_registers : Registers small_lwip
small_registers = record {
  callback = λ u w. w.callbacks u;
  port = λ u w. w.ports u;
  callback-recv = λ u c w. at_key_self u c w.callbacks;
  callback-recv_other = λ u v c w h. at_key_other u v c w.callbacks h;
  callback-bind = λ u v a n w. refl;
  callback-new = λ u v w w' e h.
      ap (λ (r : Option ℕ × Stack). r.1.callbacks v) {x = (some u, w')}
        {y = (some w.next, record w { next = w.next + 1 })} (sym e);
  port-recv = λ u v c w. refl;
  port-bind = λ u a n w w' e.
      ap (λ (r : ℤ × Stack). r.1.ports u) {x = (err_ok, w')} {y = (err_ok, bound (some u) n w)}
        (sym e)
      ∙ at_key_self u n w.ports;
  port-bind_other = λ u v a n w h. at_key_other u v n w.ports h;
  port-new = λ u v w w' e h.
      ap (λ (r : Option ℕ × Stack). r.1.ports v) {x = (some u, w')}
        {y = (some w.next, record w { next = w.next + 1 })} (sym e);
}
