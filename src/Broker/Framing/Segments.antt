-- ===== src/Broker/Framing/Segments.antt =====
-- Messages of security/broker/protocol.py, and the pieces in which a socket delivers them.
use mathlib.Core.List.{flatten, append_assoc}
use renesas_ra8m1_provisioni.Prelude.{
  ℕ, zero, suc, ◌+◌, ◌-◌, ◌*◌, ◌/◌, ◌%◌, ◌≤◌, ◌<◌, min, ◌≡◌, refl, sym, ap, ◌∙◌, Option, some, List,
  [], ◌∷◌, ◌++◌, arith, length, take, drop, length-append, take-append-drop, length-take, lt→ltb,
}
use renesas_ra8m1_provisioni.Broker.Framing.{
  Socket, push_back, recv, gather, recv_all, unpack, pack, Read, read_body, read_message,
  write_message,
}

-- No piece is empty.
abbrev pub AreOpen : Socket → Type 0
AreOpen [] = Unit
AreOpen (piece ∷ s) = (0 < length piece) × AreOpen s

-- A common text whose first cut is at or before the second.
split_prefix :
    (chunk t xs more : List ℕ)
    → chunk ++ t ≡ xs ++ more
    → length chunk ≤ length xs
    → (ys : List ℕ) × (xs ≡ chunk ++ ys) × (t ≡ ys ++ more)
split_prefix [] t xs more e h = (xs, refl, e)
split_prefix (c ∷ cs) t [] more e h = absurd (omega (arith, h))
split_prefix (c ∷ cs) t (x ∷ xs) more e h =
    let head_eq : x ≡ c = ap (λ (l : List ℕ). elim l [ [] ↦ c | y ∷ ys ↦ y ]) (sym e) in
    let tail_eq : cs ++ t ≡ xs ++ more = ap (drop 1) e in
    let (ys, p, q) = split_prefix cs t xs more tail_eq (omega (arith, h)) in (ys, cc, q)

push_back_lem :
    (bs : List ℕ) (s : Socket)
    → AreOpen s
    → AreOpen (push_back bs s) × (flatten (push_back bs s) ≡ bs ++ flatten s)
unfolding push_back flatten
push_back_lem [] s h = (h, refl)
push_back_lem (b ∷ bs) s h = ((omega arith, h), refl)

-- A call of `recv` on an open socket that holds bytes takes one or more of the next bytes.
recv_lem :
    (n : ℕ) (s : Socket) (x : ℕ) (xs : List ℕ)
    → 0 < n
    → AreOpen s
    → flatten s ≡ x ∷ xs
    → (0 < length (recv n s).0)
      × (length (recv n s).0 ≤ n)
      × AreOpen (recv n s).1
      × ((recv n s).0 ++ flatten (recv n s).1 ≡ flatten s)
unfolding recv flatten
recv_lem n [] x xs h o e = cc
recv_lem n (piece ∷ s) x xs h (o, os) e =
    let (op, eq) = push_back_lem (drop n piece) s os in
    (
      omega (arith, length-take n piece, o),
      omega (arith, length-take n piece),
      op,
      ap (λ z. take n piece ++ z) eq
          ∙ (sym (append_assoc (take n piece) (drop n piece) (flatten s))
              ∙ ap (λ z. z ++ flatten s) (take-append-drop n piece)),
    )

gathered :
    (chunk : List ℕ) (o : Option (List ℕ × Socket)) (data' : List ℕ) (s : Socket)
    → 0 < length chunk
    → o ≡ some (data', s)
    → gather chunk o ≡ some (chunk ++ data', s)
unfolding gather
gathered [] o data' s h e = absurd (omega (arith, h))
gathered (b ∷ bs) o data' s h e = rw e refl

-- The loop reads exactly the next bytes, however they are cut into pieces.
recv_all_lem :
    (most fuel : ℕ) (xs more : List ℕ) (s : Socket)
    → 0 < most
    → length xs ≤ fuel
    → AreOpen s
    → flatten s ≡ xs ++ more
    → (s' : Socket) × (recv_all most fuel (length xs) s ≡ some (xs, s'))
      × AreOpen s'
      × (flatten s' ≡ more)
unfolding recv_all
recv_all_lem most fuel [] more s h k o e = (s, refl, o, e)
recv_all_lem most zero (x ∷ xs) more s h k o e = absurd (omega (arith, k))
recv_all_lem most (suc fuel) (x ∷ xs) more s h k o e =
    let n = min (suc (length xs)) most in
    let (pos, le, op, eq) = recv_lem n s x (xs ++ more) (omega (arith, h)) o e in
    let chunk = (recv n s).0 in
    let (ys, p, q) =
      split_prefix chunk (flatten (recv n s).1) (x ∷ xs) more (eq ∙ e) (omega (arith, le)) in
    let size : suc (length xs) ≡ length chunk + length ys = ap length p ∙ length-append chunk ys in
    let (s', r, o', f) =
      recv_all_lem most fuel ys more (recv n s).1 h (omega (arith, size, pos, k)) op q in
    let left : suc (length xs) - length chunk ≡ length ys = omega (arith, size) in
    (
      s',
      gathered chunk _ ys s' pos (ap (λ z. recv_all most fuel z (recv n s).1) left ∙ r)
          ∙ ap (λ l. some (l, s')) (sym p),
      o',
      f,
    )

unpack-pack :
    (n : ℕ)
    → n < 0x100000000
    → unpack (n / 0x1000000 ∷ n / 0x10000 % 256 ∷ n / 0x100 % 256 ∷ n % 256 ∷ []) ≡ n
unfolding unpack
unpack-pack n h = omega arith

read_body_lem :
    (n : ℕ) (data' : List ℕ) (s t : Socket)
    → n ≤ 16 * 1024 * 1024
    → recv_all 65536 n n s ≡ some (data', t)
    → read_body n s ≡ Read.message data' t
unfolding read_body
read_body_lem n data' s t h e = ground arith

read_message_lem :
    (prefix : List ℕ) (s t : Socket)
    → recv_all 4 4 4 s ≡ some (prefix, t)
    → read_message s ≡ read_body (unpack prefix) t
unfolding read_message
read_message_lem prefix s t e = rw (e, read_message) refl

-- However the bytes of a message of at most 16 MB are cut into pieces, and whatever follows them,
-- `read_message` returns the message that was written and leaves what follows it in the socket.
pub read_message-write_message :
    (data' frame more : List ℕ) (s : Socket)
    → write_message data' ≡ some frame
    → length data' ≤ 16 * 1024 * 1024
    → AreOpen s
    → flatten s ≡ frame ++ more
    → (s' : Socket) × (read_message s ≡ Read.message data' s') × AreOpen s' × (flatten s' ≡ more)
unfolding write_message pack
read_message-write_message data' frame more s w h o e =
    let prefix : List ℕ =
      length data' / 0x1000000
      ∷ length data' / 0x10000 % 256
      ∷ length data' / 0x100 % 256
      ∷ length data' % 256
      ∷ [] in
    let f : prefix ++ data' ≡ frame = ground arith in
    let (t, r, ot, ft) =
      recv_all_lem 4 4 prefix (data' ++ more) s (omega arith) (omega arith) o
        (e ∙ (ap (λ z. z ++ more) (sym f) ∙ append_assoc prefix data' more)) in
    let (u, q, ou, fu) =
      recv_all_lem 65536 (length data') data' more t (omega arith) (omega arith) ot ft in
    let v = unpack-pack (length data') (omega (arith, h)) in
    (
      u,
      read_message_lem prefix s t r
          ∙ (ap (λ z. read_body z t) v ∙ read_body_lem (length data') data' t u h q),
      ou,
      fu,
    )

read_body_too_large : (n : ℕ) (s : Socket) → 16 * 1024 * 1024 < n → read_body n s ≡ Read.too_large
unfolding read_body
read_body_too_large n s h = rw (lt→ltb (16 * 1024 * 1024) n h, read_body) refl

-- A length of more than 16 MB is refused, whatever follows it.
pub read_message_too_large :
    (prefix more : List ℕ) (s : Socket)
    → length prefix ≡ 4
    → 16 * 1024 * 1024 < unpack prefix
    → AreOpen s
    → flatten s ≡ prefix ++ more
    → read_message s ≡ Read.too_large
read_message_too_large prefix more s n h o e =
    let (t, r, ot, ft) = recv_all_lem 4 4 prefix more s (omega arith) (omega (arith, n)) o e in
    read_message_lem prefix s t (ap (λ z. recv_all 4 4 z s) (sym n) ∙ r)
    ∙ read_body_too_large (unpack prefix) t h
