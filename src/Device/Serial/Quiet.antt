-- ===== src/Device/Serial/Quiet.antt =====
-- Receiving a packet, and what was written to the port.
use renesas_ra8m1_provisioni.Prelude.{
  ℕ, zero, suc, ◌≡◌, refl, ◌∙◌, List, [], ◌∷◌, ◌++◌, ◌+◌, ◌*◌, arith,
}
use renesas_ra8m1_provisioni.Device.Serial.{
  Port, Exn, Result, ok, raised, Action, ◌>>=◌, raise, from_bytes, read, read_times, read_many,
  receive_error, receive_length, receive_low, receive_body, receive_after_start,
  receive_data_packet,
}

abbrev pub IsQuiet : {A : Type 0} → Action A → Type 0
IsQuiet m = (s : Port) → (m s).1.sent ≡ s.sent

bind_quiet :
    {A B : Type 0} (r : Result A) (s1 : Port) (f : A → Action B)
    → ((a : A) → IsQuiet (f a))
    → (let x : Result B × Port = elim r [ ok a ↦ f a s1 | raised e ↦ (raised e, s1) ] in x.1.sent)
      ≡ s1.sent
bind_quiet (ok a) s1 f h = h a s1
bind_quiet (raised e) s1 f h = refl

pub >>=-IsQuiet :
    {A B : Type 0} (m : Action A) (f : A → Action B)
    → IsQuiet m
    → ((a : A) → IsQuiet (f a))
    → IsQuiet (m >>= f)
>>=-IsQuiet m f hm hf s = bind_quiet (m s).0 (m s).1 f hf ∙ hm s

read-IsQuiet : IsQuiet read
unfolding read
read-IsQuiet s = refl

read_times-IsQuiet : (n : ℕ) (packet : List ℕ) → IsQuiet (read_times n packet)
unfolding read_times
read_times-IsQuiet zero packet s = refl
read_times-IsQuiet (suc n) packet s =
    >>=-IsQuiet read (λ b. read_times n (packet ++ b)) read-IsQuiet
      (λ b. read_times-IsQuiet n (packet ++ b)) s

read_many-IsQuiet : (n : ℕ) → IsQuiet (read_many n)
unfolding read_many
read_many-IsQuiet n s = refl

receive_error-IsQuiet : (sod : ℕ) → IsQuiet (receive_error sod)
unfolding receive_error
receive_error-IsQuiet sod =
    >>=-IsQuiet (read_many 7) (λ _. raise {A = List ℕ} Exn.device_error) (read_many-IsQuiet 7)
      (λ _ t. refl)

receive_length-IsQuiet : (sod : ℕ) (lnh lnl : List ℕ) → IsQuiet (receive_length sod lnh lnl)
unfolding receive_length
receive_length-IsQuiet sod lnh lnl s =
    read_times-IsQuiet (from_bytes 0 lnh * 256 + from_bytes 0 lnl + 2) ((sod ∷ lnh) ++ lnl) s

receive_low-IsQuiet : (sod : ℕ) (lnh : List ℕ) → IsQuiet (receive_low sod lnh)
unfolding receive_low
receive_low-IsQuiet sod lnh =
    >>=-IsQuiet read (receive_length sod lnh) read-IsQuiet (receive_length-IsQuiet sod lnh)

receive_body-IsQuiet : (sod : ℕ) → IsQuiet (receive_body sod)
unfolding receive_body
receive_body-IsQuiet sod = >>=-IsQuiet read (receive_low sod) read-IsQuiet (receive_low-IsQuiet sod)

receive_after_start-IsQuiet : (sod : List ℕ) → IsQuiet (receive_after_start sod)
unfolding receive_after_start
receive_after_start-IsQuiet [] s = refl
receive_after_start-IsQuiet (b ∷ bs) s =
    ground (arith, receive_error-IsQuiet b s, receive_body-IsQuiet b s)

pub receive_data_packet-IsQuiet : IsQuiet receive_data_packet
unfolding receive_data_packet
receive_data_packet-IsQuiet =
    >>=-IsQuiet read receive_after_start read-IsQuiet receive_after_start-IsQuiet
