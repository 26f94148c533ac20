-- ===== src/Device/Command/Frames.antt =====
-- What a write command that returns `True` has sent.
use mathlib.Core.Path.{ap₂}
use mathlib.Core.List.{flatten, append-nil, append_assoc}
use renesas_ra8m1_provisioni.Prelude.{
  ℕ, zero, suc, ◌+◌, ◌-◌, ◌^◌, ◌≤◌, ◌<◌, ◌≡◌, refl, sym, ap, ◌∙◌, Bool, true, false, ◌&&◌, List, [],
  ◌∷◌, ◌++◌, map, arith, length, length-take, length-drop, take, drop, take-append-drop,
}
use renesas_ra8m1_provisioni.Device.Serial.{
  Port, ok, Action, ◌>>=◌, >>=-eq-ok, pure, write, be32, to_bytes4, decode_status_packet, is_value,
  is_clear, receive_data_packet,
}
use renesas_ra8m1_provisioni.Device.Serial.Quiet.{IsQuiet, >>=-IsQuiet, receive_data_packet-IsQuiet}
use renesas_ra8m1_provisioni.Device.Command.{
  framed, command_body, erase_reply, send_erase, command_erase, is_accepted, data_body, accepted,
  last_address, after_reply, write_chunks, send_write, command_write,
}

-- Each part has a byte, and at most 1024.
abbrev pub AreChunks : List (List ℕ) → Type 0
AreChunks [] = Unit
AreChunks (c ∷ cs) = (0 < length c) × (length c ≤ 1024) × AreChunks cs

abbrev pub chunk_frame : List ℕ → List ℕ
chunk_frame c = framed 0x81 (data_body c)

accepted-IsQuiet : IsQuiet accepted
unfolding accepted
accepted-IsQuiet =
    >>=-IsQuiet receive_data_packet (λ rp. pure (is_accepted rp)) receive_data_packet-IsQuiet
      (λ rp s. refl)

abbrev sending : Port → List ℕ → Port
sending s pkt = record s { sent = s.sent ++ pkt ∷ [] }

reply_true :
    (good : Bool) (k : Action Bool) (s s' : Port)
    → after_reply good k s ≡ (ok true, s')
    → (good ≡ true) × (k s ≡ (ok true, s'))
reply_true true k s s' h = (refl, h)
reply_true false k s s' h = cc

-- A packet that is sent, accepted and followed by what returns `True`.
sent_and_accepted :
    (s s' : Port) (pkt : List ℕ) (k : Action Bool)
    → (write pkt >>= λ _. accepted >>= λ good. after_reply good k) s ≡ (ok true, s')
    → (t : Port) × (t.sent ≡ s.sent ++ pkt ∷ []) × (k t ≡ (ok true, s'))
sent_and_accepted s s' pkt k h =
    let s1 = sending s pkt in
    let r = >>=-eq-ok accepted (λ good. after_reply good k) {s = s1} h in
    ((accepted s1).1, accepted-IsQuiet s1, (reply_true r.0 k (accepted s1).1 s' r.2).1)

-- One round of the loop of `_command_write`.
write_chunks_step :
    (fuel : ℕ) (b : ℕ) (bs : List ℕ) (s s' : Port)
    → write_chunks (suc fuel) (b ∷ bs) s ≡ (ok true, s')
    → (t : Port) × (t.sent ≡ s.sent ++ chunk_frame (take 1024 (b ∷ bs)) ∷ [])
      × (write_chunks fuel (drop 1024 (b ∷ bs)) t ≡ (ok true, s'))
unfolding write_chunks
write_chunks_step fuel b bs s s' h =
    sent_and_accepted s s' (chunk_frame (take 1024 (b ∷ bs)))
      (write_chunks fuel (drop 1024 (b ∷ bs))) h

-- The rounds send the data in parts, in order.
write_chunks_sent :
    (fuel : ℕ) (d : List ℕ) (s s' : Port)
    → write_chunks fuel d s ≡ (ok true, s')
    → (cs : List (List ℕ)) × (flatten cs ≡ d)
      × AreChunks cs
      × (s'.sent ≡ s.sent ++ map chunk_frame cs)
unfolding write_chunks flatten
write_chunks_sent zero [] s s' h = ([], refl, tt, simp append-nil (ap (λ r. r.1.sent) (sym h)))
write_chunks_sent (suc fuel) [] s s' h =
    ([], refl, tt, simp append-nil (ap (λ r. r.1.sent) (sym h)))
write_chunks_sent zero (b ∷ bs) s s' h = cc
write_chunks_sent (suc fuel) (b ∷ bs) s s' h =
    let r = write_chunks_step fuel b bs s s' h in
    let ih = write_chunks_sent fuel (drop 1024 (b ∷ bs)) r.0 s' r.2 in
    (
      take 1024 (b ∷ bs) ∷ ih.0,
      ap (λ t. take 1024 (b ∷ bs) ++ t) ih.1 ∙ take-append-drop 1024 (b ∷ bs),
      (omega arith, omega (arith, length-take 1024 (b ∷ bs)), ih.2),
      ih.3
          ∙ ap (λ t. t ++ map chunk_frame ih.0) r.1
          ∙ append_assoc s.sent (chunk_frame (take 1024 (b ∷ bs)) ∷ []) (map chunk_frame ih.0),
    )

to_bytes4_ok :
    (x : ℕ) (s : Port) {b : List ℕ}
    → (to_bytes4 x s).0 ≡ ok b
    → (x < 2 ^ 32) × (b ≡ be32 x) × ((to_bytes4 x s).1 ≡ s)
unfolding to_bytes4
to_bytes4_ok x s h = (ground arith, ground arith, ground arith)

last_address_ok :
    (a n : ℕ) (s : Port) {b : List ℕ}
    → (last_address a n s).0 ≡ ok b
    → (a + n ≤ 2 ^ 32) × (b ≡ be32 (a + n - 1)) × ((last_address a n s).1 ≡ s)
unfolding last_address
last_address_ok a n s h = (ground arith, ground arith, ground arith)

-- The announcement of a write.
abbrev pub announcement : ℕ → ℕ → List ℕ
announcement a n = framed 0x01 (command_body 0x13 (be32 a) (be32 (a + n - 1)))

-- A write command that returns `True`: the announcement is sent, and the loop over the data returns
-- `True`.
command_write_parts :
    (a : ℕ) (d : List ℕ) (s s' : Port)
    → command_write a d s ≡ (ok true, s')
    → (t : Port) × (t.sent ≡ s.sent ++ announcement a (length d) ∷ [])
      × (write_chunks (length d) d t ≡ (ok true, s'))
      × (a + length d ≤ 2 ^ 32)
unfolding command_write send_write
command_write_parts a d s s' h =
    let n = length d in
    let r = >>=-eq-ok (to_bytes4 a) (λ sad. last_address a n >>= send_write d sad) {s = s} h in
    let t = (to_bytes4 a s).1 in
    let q = >>=-eq-ok (last_address a n) (send_write d r.0) {s = t} r.2 in
    let u = (last_address a n t).1 in
    let sad_lem = to_bytes4_ok a s r.1 in
    let ead_lem = last_address_ok a n t q.1 in
    let pkt = framed 0x01 (command_body 0x13 r.0 q.0) in
    let p = sent_and_accepted u s' pkt (write_chunks n d) q.2 in
    let same : u.sent ≡ s.sent = ap (λ (x : Port). x.sent) (ead_lem.2 ∙ sad_lem.2) in
    (
      p.0,
      p.1
          ∙ ap₂ (λ x y. x ++ y ∷ []) same
              (ap₂ (λ x y. framed 0x01 (command_body 0x13 x y)) sad_lem.1 ead_lem.1),
      p.2,
      ead_lem.0,
    )

-- A write command that returns `True` has sent one announcement of the address range, with the first
-- and the last address in four bytes each, and then the data in order, in packets of 1 to 1024 bytes;
-- it has sent nothing else, and the range ends at or below 2^32.
pub command_write_sent :
    (a : ℕ) (d : List ℕ) (s s' : Port)
    → command_write a d s ≡ (ok true, s')
    → (cs : List (List ℕ)) × (flatten cs ≡ d)
      × AreChunks cs
      × (s'.sent ≡ s.sent ++ announcement a (length d) ∷ map chunk_frame cs)
      × (a + length d ≤ 2 ^ 32)
command_write_sent a d s s' h =
    let p = command_write_parts a d s s' h in
    let c = write_chunks_sent (length d) d p.0 s' p.2 in
    (
      c.0,
      c.1,
      c.2,
      c.3
          ∙ ap (λ t. t ++ map chunk_frame c.0) p.1
          ∙ append_assoc s.sent (announcement a (length d) ∷ []) (map chunk_frame c.0),
      p.3,
    )

take_all : (n : ℕ) (d : List ℕ) → length d ≤ n → take n d ≡ d
take_all zero [] h = refl
take_all zero (b ∷ bs) h = absurd (omega arith)
take_all (suc n) [] h = refl
take_all (suc n) (b ∷ bs) h = ap (λ t. b ∷ t) (take_all n bs (omega arith))

drop_all : (n : ℕ) (d : List ℕ) → length d ≤ n → drop n d ≡ []
drop_all zero [] h = refl
drop_all zero (b ∷ bs) h = absurd (omega arith)
drop_all (suc n) [] h = refl
drop_all (suc n) (b ∷ bs) h = drop_all n bs (omega arith)

write_chunks_nil :
    (fuel : ℕ) (s s' : Port) → write_chunks fuel [] s ≡ (ok true, s') → s'.sent ≡ s.sent
unfolding write_chunks
write_chunks_nil zero s s' h = ap (λ r. r.1.sent) (sym h)
write_chunks_nil (suc fuel) s s' h = ap (λ r. r.1.sent) (sym h)

write_chunks_short :
    (d : List ℕ) (s s' : Port)
    → 0 < length d
    → length d ≤ 1024
    → write_chunks (length d) d s ≡ (ok true, s')
    → s'.sent ≡ s.sent ++ chunk_frame d ∷ []
write_chunks_short [] s s' h k e = elim h [ ]
write_chunks_short (b ∷ bs) s s' h k e =
    let r = write_chunks_step (length bs) b bs s s' e in
    let q : write_chunks (length bs) [] r.0 ≡ (ok true, s') =
      ap (λ t. write_chunks (length bs) t r.0) (sym (drop_all 1024 (b ∷ bs) k)) ∙ r.2 in
    write_chunks_nil (length bs) r.0 s' q
    ∙ r.1
    ∙ ap (λ t. s.sent ++ chunk_frame t ∷ []) (take_all 1024 (b ∷ bs) k)

-- Of at most 1024 bytes the data go in one packet.
pub command_write_short :
    (a : ℕ) (d : List ℕ) (s s' : Port)
    → 0 < length d
    → length d ≤ 1024
    → command_write a d s ≡ (ok true, s')
    → s'.sent ≡ s.sent ++ announcement a (length d) ∷ chunk_frame d ∷ []
command_write_short a d s s' h k e =
    let p = command_write_parts a d s s' e in
    write_chunks_short d p.0 s' h k p.2
    ∙ ap (λ t. t ++ chunk_frame d ∷ []) p.1
    ∙ append_assoc s.sent (announcement a (length d) ∷ []) (chunk_frame d ∷ [])

sends_in_turn :
    (pkt : List ℕ) {k k' : Action Bool}
    → k ≡ k'
    → (write pkt >>= λ _. accepted >>= λ good. after_reply good k)
      ≡ (write pkt >>= λ _. accepted >>= λ good. after_reply good k')
sends_in_turn pkt e = ap (λ k. write pkt >>= λ _. accepted >>= λ good. after_reply good k) e

-- The fuel of the loop is enough: any two amounts of at least the length of the data have the same
-- result, whatever the device answers.
pub write_chunks_fuel :
    (f g : ℕ) (d : List ℕ) → length d ≤ f → length d ≤ g → write_chunks f d ≡ write_chunks g d
unfolding write_chunks
write_chunks_fuel zero zero [] h k = refl
write_chunks_fuel zero (suc g) [] h k = refl
write_chunks_fuel (suc f) zero [] h k = refl
write_chunks_fuel (suc f) (suc g) [] h k = refl
write_chunks_fuel zero g (b ∷ bs) h k = absurd (omega arith)
write_chunks_fuel (suc f) zero (b ∷ bs) h k = absurd (omega arith)
write_chunks_fuel (suc f) (suc g) (b ∷ bs) h k = sends_in_turn (chunk_frame (take 1024 (b ∷ bs))) (
    write_chunks_fuel f g (drop 1024 (b ∷ bs)) (omega (arith, length-drop 1024 (b ∷ bs)))
      (omega (arith, length-drop 1024 (b ∷ bs))))

unfoldable pub erase_frame : ℕ → ℕ → List ℕ
erase_frame a b = framed 0x01 (command_body 0x12 (be32 a) (be32 b))

erase_reply-IsQuiet : IsQuiet erase_reply
unfolding erase_reply
erase_reply-IsQuiet =
    >>=-IsQuiet receive_data_packet
      (λ rp.
        pure
          (is_value (decode_status_packet rp).res 0x12 && is_clear (decode_status_packet rp).sts))
      receive_data_packet-IsQuiet (λ rp s. refl)

send_erase_sent :
    (sad ead : List ℕ) (s : Port)
    → (send_erase sad ead s).1.sent ≡ s.sent ++ framed 0x01 (command_body 0x12 sad ead) ∷ []
unfolding send_erase
send_erase_sent sad ead s =
    erase_reply-IsQuiet (sending s (framed 0x01 (command_body 0x12 sad ead)))

-- An erase command that returns has sent its one packet.
pub command_erase_sent :
    (a b : ℕ) (s s' : Port) (r : Bool)
    → command_erase a b s ≡ (ok r, s')
    → s'.sent ≡ s.sent ++ erase_frame a b ∷ []
unfolding command_erase erase_frame
command_erase_sent a b s s' r h =
    let p = >>=-eq-ok (to_bytes4 a) (λ sad. to_bytes4 b >>= send_erase sad) {s = s} h in
    let t = (to_bytes4 a s).1 in
    let q = >>=-eq-ok (to_bytes4 b) (send_erase p.0) {s = t} p.2 in
    let u = (to_bytes4 b t).1 in
    let sad_lem = to_bytes4_ok a s p.1 in
    let ead_lem = to_bytes4_ok b t q.1 in
    let same : u.sent ≡ s.sent = ap (λ (x : Port). x.sent) (ead_lem.2 ∙ sad_lem.2) in
    ap (λ x. x.1.sent) (sym q.2)
    ∙ send_erase_sent p.0 q.0 u
    ∙ ap₂ (λ x y. x ++ y ∷ []) same
        (ap₂ (λ x y. framed 0x01 (command_body 0x12 x y)) sad_lem.1 ead_lem.1)
