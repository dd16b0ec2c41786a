-- ===== src/Transport/Guarding.antt =====
-- The pin and the client certificate of src/transport_winhttp.cpp.
use mathlib.Core.Option.{some-injective}
use nano_sensor.Base.{
  ◌≡◌, refl, ◌⊎◌, inl, inr, true, false, ◌||◌, Bool-cases, Option, Option-cases, none, some, List,
  [], ◌∷◌, ◌++◌, arith,
}
use nano_sensor.Text.{Bytes, bytes_eq, bytes_eq→eq}
use nano_sensor.Transport.Reply.{Result}
use nano_sensor.Transport.Openssl.{hex_lower}
use nano_sensor.Transport.Winhttp.{
  Certificate, with_key, ServerCertificate, unread, no_provider, unhashed, digest, Peer, Outcome,
  verify_pin, sent, attached, requested, connected, opened, post,
}

-- The hash of the server's certificate is the pin.
pub data IsPinned (pin : Bytes) : ServerCertificate → Type 0 where
  pinned : {bytes : Bytes} → hex_lower bytes ≡ pin → IsPinned pin (digest bytes)

-- Either the server is the pinned one, or no byte of the body was written and the POST failed.
abbrev pub Withholds : Bytes → ServerCertificate → Result × Bytes → Type 0
Withholds pin certificate (result, written) =
    IsPinned pin certificate ⊎ ((written ≡ []) × (result.ok ≡ false))

verified : (pin : Bytes) (c : ServerCertificate) → verify_pin pin c ≡ none → IsPinned pin c
unfolding verify_pin
verified pin (unread e) h = absurd (ground (arith, h))
verified pin no_provider h = absurd (ground (arith, h))
verified pin unhashed h = absurd (ground (arith, h))
verified pin (digest bytes) h = elim (Bool-cases (bytes_eq (hex_lower bytes) pin)) [
  | inl e ↦ pinned (bytes_eq→eq (hex_lower bytes) pin e)
  | inr e ↦ absurd (ground (arith, h, e))
]

module _ (pin : Bytes) (peer : Peer) (body : Bytes) where
  abbrev Guarded : Result × Bytes → Type 0
  Guarded = Withholds pin peer.certificate

  sent-Withholds : (send : Outcome) → Guarded (sent pin peer body send)
  sent-Withholds (some e) = inr (refl, refl)
  sent-Withholds none = elim (Option-cases (verify_pin pin peer.certificate)) [
    | inl e ↦ inl (verified pin peer.certificate e)
    | inr (error, e) ↦ rw e (inr (refl, refl))
  ]

  attached-Withholds : (attach : Outcome) → Guarded (attached pin peer body attach)
  attached-Withholds (some e) = inr (refl, refl)
  attached-Withholds none = sent-Withholds peer.send

  requested-Withholds :
      (client : Option Certificate) (request : Outcome)
      → Guarded (requested pin client peer body request)
  requested-Withholds client (some e) = inr (refl, refl)
  requested-Withholds (some c) none = attached-Withholds peer.attach
  requested-Withholds none none = sent-Withholds peer.send

  connected-Withholds :
      (client : Option Certificate) (connect : Outcome)
      → Guarded (connected pin client peer body connect)
  connected-Withholds client (some e) = inr (refl, refl)
  connected-Withholds client none = requested-Withholds client peer.open_request

  -- Whatever the calls of WinHTTP return, a byte of the body is written, or the POST returns ok, only
  -- if the hash of the server's certificate in lower-case hexadecimal is the pin.
  pub post-Withholds : (client : Option Certificate) → Guarded (post pin client peer body)
  unfolding post
  post-Withholds client = opened_lem peer.session
    where
      opened_lem : (session : Outcome) → Guarded (opened pin client peer body session)
      opened_lem (some e) = inr (refl, refl)
      opened_lem none = connected-Withholds client peer.connect

abbrev HasKey : Certificate → Type 0
HasKey c = (c.prov_info || c.key_context) ≡ true

-- The certificate that is taken from a bundle is the first with a private key.
pub with_key-first :
    (cs : List Certificate) (c : Certificate)
    → with_key cs ≡ some c
    → HasKey c
      × ((before : List Certificate) × (after : List Certificate) × (cs ≡ before ++ (c ∷ after))
          × (with_key before ≡ none))
unfolding with_key
with_key-first [] c h = absurd (ground (arith, h))
with_key-first (x ∷ cs) c h = elim (Bool-cases (x.prov_info || x.key_context)) [
  | inl e ↦
      let same : x ≡ c = some-injective x c (rw (with_key, e) at h) in
      (rw same at e, ([], cs, rw same, refl))
  | inr e ↦
      let (key, (before, after, split, no_key)) = with_key-first cs c (rw (with_key, e) at h) in
      (key, (x ∷ before, after, rw split, rw (with_key, e, no_key)))
]
