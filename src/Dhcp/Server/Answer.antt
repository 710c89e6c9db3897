-- ===== src/Dhcp/Server/Answer.antt =====
-- The reply of `dhcp_server_process`, byte by byte, for every packet that is answered.
use pico_rfu.Prelude.{ℕ, ◌+◌, ◌%◌, ◌≤◌, ◌<◌, ◌≡◌, ◌⊎◌, inl, inr, ap, sym, subst, ◌∙◌}
use pico_rfu.Prelude.{some, List, [], ◌∷◌, ◌++◌, arith, go, >>=-eq-go}
use pico_rfu.Prelude.{length, length-take, take, drop, get_elem?, leb, require}
use pico_rfu.Prelude.{slice, splice, length-splice, take-splice_end, read, or_ignore}
use pico_rfu.Prelude.{get_elem?-append_left, get_elem?-splice_after, get_elem?-splice_before}
use pico_rfu.Prelude.{get_elem?-splice_in, get_elem?-take, drop-append}
use pico_rfu.Prelude.{write-in_range}
use pico_rfu.Dhcp.Options.{opt_find, opt_end, opt_msg_type}
use pico_rfu.Dhcp.Options.Find.{encode}
use pico_rfu.Dhcp.Server.{Server, receive, dispatch, answer, msg_size, yiaddr, chaddr}
use pico_rfu.Dhcp.Server.{finish, respond, options, dhcp_min_size, dhcpoffer}
use pico_rfu.Dhcp.Lease.{mac_len, base_ip}
use pico_rfu.Dhcp.Server.Reply.{quad-cases, reply_options, write_options_lem}
use pico_rfu.Dhcp.Server.Grant.{dispatch_addresses}
use pico_rfu.Dhcp.Server.Message.{
  Sized, received, with_op_size, received_size, receive_lem, get_elem?-received, same_client,
}

-- A reply to the packet `bytes`: a BOOTP reply with the address of slot `yi` on the server's net,
-- the packet's own bytes in every other field before the options, and then the options.
pub record IsReply (bytes ip nm : List ℕ) (code yi : ℕ) (reply : List ℕ) : Type 0 where
  pub op : get_elem? reply 0 ≡ some dhcpoffer
  pub net : (i : ℕ) → i < 3 → get_elem? reply (yiaddr + i) ≡ get_elem? ip i
  pub host : get_elem? reply (yiaddr + 3) ≡ some ((base_ip + yi) % 256)
  pub echoes :
      (i : ℕ)
      → 0 < i
      → i < options
      → (i < yiaddr) ⊎ (yiaddr + 4 ≤ i)
      → get_elem? reply i ≡ get_elem? bytes i
  pub tail : drop options reply ≡ encode (reply_options code ip nm) ++ (opt_end ∷ [])

-- What happened when a packet was answered.
pub record Answered {Pcb : Type 0} (ticks : ℕ → ℕ) (bytes : List ℕ) (d d' : Server Pcb)
    (reply : List ℕ) : Type 0 where
  pub msg : List ℕ
  pub kind : ℕ
  pub yi : ℕ
  pub code : ℕ
  pub chosen : dispatch kind ticks msg (slice bytes chaddr mac_len) d ≡ go (d', yi, code)
  pub is_reply : IsReply bytes d.ip d.nm code yi reply

module _ {Pcb : Type 0} (stack bytes : List ℕ) (d : Server Pcb) (sized : Sized stack bytes d) where
  abbrev pub addressed : ℕ → List ℕ
  addressed yi = splice (received stack bytes d.ip) (yiaddr + 3) (((base_ip + yi) % 256) ∷ [])

  addressed_size : (yi : ℕ) → length (addressed yi) ≡ msg_size
  addressed_size yi =
      length-splice (received stack bytes d.ip) (yiaddr + 3) _
        (omega (arith, received_size stack bytes d sized))
      ∙ received_size stack bytes d sized

  abbrev pub replied : ℕ → ℕ → List ℕ
  replied code yi =
      take options (addressed yi) ++ (encode (reply_options code d.ip d.nm) ++ (opt_end ∷ []))

  head_size : (yi : ℕ) → length (take options (addressed yi)) ≡ options
  head_size yi = omega (arith, addressed_size yi, length-take options (addressed yi))

  -- A byte before the options is that of the message.
  get_elem?-replied :
      (code yi i : ℕ) → i < options → get_elem? (replied code yi) i ≡ get_elem? (addressed yi) i
  get_elem?-replied code yi i h =
      get_elem?-append_left (take options (addressed yi)) _ i (omega (arith, head_size yi))
      ∙ get_elem?-take (addressed yi) options i h

  get_elem?-addressed :
      (yi i : ℕ)
      → (i < yiaddr) ⊎ (yiaddr + 4 ≤ i)
      → get_elem? (addressed yi) i ≡ get_elem? (received stack bytes d.ip) i
  get_elem?-addressed yi i (inl before) =
      get_elem?-splice_before (received stack bytes d.ip) (yiaddr + 3) i _
        (omega (arith, received_size stack bytes d sized)) (omega arith)
  get_elem?-addressed yi i (inr after) =
      get_elem?-splice_after (received stack bytes d.ip) (yiaddr + 3) i _
        (omega (arith, received_size stack bytes d sized)) (omega arith)

  pub replied-IsReply :
      (code yi : ℕ)
      → dhcp_min_size ≤ length bytes
      → IsReply bytes d.ip d.nm code yi (replied code yi)
  replied-IsReply code yi h = record {
    op =
        get_elem?-replied code yi 0 (omega arith)
        ∙ get_elem?-splice_before (received stack bytes d.ip) (yiaddr + 3) 0 _
            (omega (arith, received_size stack bytes d sized)) (omega arith)
        ∙ get_elem?-splice_before _ yiaddr 0 d.ip (omega (arith, with_op_size stack bytes d sized))
            (omega arith)
        ∙ get_elem?-splice_in (bytes ++ drop (length bytes) stack) 0 0 (dhcpoffer ∷ [])
            (omega arith) (omega arith);
    net = λ i p.
        get_elem?-replied code yi (yiaddr + i) (omega arith)
        ∙ get_elem?-splice_before (received stack bytes d.ip) (yiaddr + 3) (yiaddr + i) _
            (omega (arith, received_size stack bytes d sized)) (omega arith)
        ∙ get_elem?-splice_in _ yiaddr i d.ip (omega (arith, with_op_size stack bytes d sized))
            (omega (arith, sized));
    host =
        get_elem?-replied code yi (yiaddr + 3) (omega arith)
        ∙ get_elem?-splice_in (received stack bytes d.ip) (yiaddr + 3) 0 _
            (omega (arith, received_size stack bytes d sized)) (omega arith);
    echoes = λ i pos lt apart.
        get_elem?-replied code yi i lt
        ∙ get_elem?-addressed yi i apart
        ∙ get_elem?-received stack bytes d sized i h pos lt apart;
    tail = drop-append (take options (addressed yi)) _ options (sym (head_size yi));
  }

  -- The message that is sent, once an address has been chosen.
  pub finish_lem :
      (code yi : ℕ) (d' : Server Pcb)
      → d'.ip ≡ d.ip
      → d'.nm ≡ d.nm
      → finish code yi (received stack bytes d.ip) d' ≡ go (replied code yi)
  unfolding finish
  finish_lem code yi d' hi hn =
      rw
        (
          write-in_range (received stack bytes d.ip) (yiaddr + 3) (((base_ip + yi) % 256) ∷ [])
              (omega (arith, received_size stack bytes d sized)),
          write_options_lem (addressed yi) (addressed_size yi) d' code
              (ap length hi ∙ sized.ip_size) (ap length hn ∙ sized.nm_size),
          hi,
          hn,
        )
        (ap go (
          take-splice_end (addressed yi) options _ (options + 34) (omega (arith, addressed_size yi))
            tail_size))
    where
      tail_size :
          options + 34 ≡ options + length (encode (reply_options code d.ip d.nm) ++ (opt_end ∷ []))
      tail_size =
          let (a, b, c, e, ip) = quad-cases d.ip sized.ip_size in
          let (p, q, r, s, nm) = quad-cases d.nm sized.nm_size in rw (ip, nm)

  respond_lem :
      (ticks : ℕ → ℕ) (kind : ℕ) (d' : Server Pcb) (reply : List ℕ)
      → dhcp_min_size ≤ length bytes
      → respond kind ticks (received stack bytes d.ip) d ≡ go (d', reply)
      → Answered ticks bytes d d' reply
  unfolding respond
  respond_lem ticks kind d' reply long h =
      let (chosen, c, h₁) = >>=-eq-go (dispatch kind ticks msg (slice msg chaddr mac_len) d) _ h in
      let (r, f, e) = >>=-eq-go (finish chosen.2 chosen.1 msg chosen.0) _ h₁ in
      let own =
        dispatch_addresses kind ticks msg (slice msg chaddr mac_len) d chosen.0 chosen.1 chosen.2
          c in
      record {
        msg = msg;
        kind = kind;
        yi = chosen.1;
        code = chosen.2;
        chosen =
            subst (λ mac. dispatch kind ticks msg mac d ≡ go (d', chosen.1, chosen.2))
              (same_client stack bytes d sized long)
              (c ∙ ap (λ (s : Server Pcb). go (s, chosen.1, chosen.2)) (cc e));
        is_reply =
            subst (IsReply bytes d.ip d.nm chosen.2 chosen.1)
              (cc (f, finish_lem chosen.2 chosen.1 chosen.0 own.0 own.1, e))
              (replied-IsReply chosen.2 chosen.1 long);
      }
    where
      msg : List ℕ
      msg = received stack bytes d.ip

  -- If the variables have their C sizes, then every packet that is answered went through one of the
  -- two cases of the `switch` with the client's hardware address from the packet, and the reply is
  -- complete: the address of the slot that the case chose, the packet's own fields before the
  -- options, and the encoded options with the message type of the case.
  pub answer_lem :
      (ticks : ℕ → ℕ) (tot_len : ℕ) (d' : Server Pcb) (reply : List ℕ)
      → answer ticks stack tot_len bytes d ≡ go (d', reply)
      → Answered ticks bytes d d' reply
  unfolding answer
  answer_lem ticks tot_len d' reply h =
      let (_, _, h₁) = >>=-eq-go (require (leb dhcp_min_size tot_len)) _ h in
      let (msg, m, h₂) = >>=-eq-go (receive stack bytes d) _ h₁ in
      let (found, _, h₃) = >>=-eq-go (opt_find msg options opt_msg_type) _ h₂ in
      let (msgtype, _, h₄) = >>=-eq-go (or_ignore found) _ h₃ in
      let (kind, _, h₅) = >>=-eq-go (read msg (msgtype + 2)) _ h₄ in
      replies msg kind (receive_lem stack bytes d sized msg m) h₅
    where
      replies :
          (msg : List ℕ) (kind : ℕ)
          → (dhcp_min_size ≤ length bytes) × (msg ≡ received stack bytes d.ip)
          → respond kind ticks msg d ≡ go (d', reply)
          → Answered ticks bytes d d' reply
      replies msg kind (long, m) h₅ =
          respond_lem ticks kind d' reply long
            (subst (λ t. respond kind ticks t d ≡ go (d', reply)) m h₅)
