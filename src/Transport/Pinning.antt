-- ===== src/Transport/Pinning.antt =====
-- The pin of src/transport_openssl.cpp.
use nano_sensor.Base.{◌≡◌, refl, ◌⊎◌, inl, inr, false, Bool-cases, Option-cases, none, [], arith}
use nano_sensor.Text.{Bytes, bytes_eq, bytes_eq→eq}
use nano_sensor.Transport.{ParsedUrl}
use nano_sensor.Transport.Reply.{Result}
use nano_sensor.Transport.Openssl.{
  Certificate, missing, unhashed, digest, Peer, hex_lower, verify_pin, exchange, post,
}

-- The hash of the peer's certificate is the pin.
pub data IsPinned (pin : Bytes) : Certificate → Type 0 where
  pinned : {bytes : Bytes} → hex_lower bytes ≡ pin → IsPinned pin (digest bytes)

-- What a POST has done: either the peer is the pinned one, or it was sent nothing and the POST failed.
abbrev pub IsGuarded : Bytes → Certificate → Result × Bytes → Type 0
IsGuarded pin certificate (result, sent) =
    IsPinned pin certificate ⊎ ((sent ≡ []) × (result.ok ≡ false))

verified : (pin : Bytes) (c : Certificate) → verify_pin pin c ≡ none → IsPinned pin c
unfolding verify_pin
verified pin missing h = absurd (ground (arith, h))
verified pin unhashed h = absurd (ground (arith, h))
verified pin (digest bytes) h = elim (Bool-cases (bytes_eq (hex_lower bytes) pin)) [
  | inl e ↦ pinned (bytes_eq→eq (hex_lower bytes) pin e)
  | inr e ↦ absurd (ground (arith, h, e))
]

exchange-IsGuarded :
    (url : ParsedUrl) (pin : Bytes) (peer : Peer) (body content_type : Bytes)
    → IsGuarded pin peer.certificate (exchange url pin peer body content_type)
exchange-IsGuarded url pin peer body content_type =
    elim (Option-cases (verify_pin pin peer.certificate)) [
      | inl e ↦ inl (verified pin peer.certificate e)
      | inr (error, e) ↦ rw (exchange, e) (inr (refl, refl))
    ]

-- Whatever the calls of OpenSSL and of the sockets return, a POST writes a byte to the peer, or
-- returns ok, only if the hash of the peer's certificate in lower-case hexadecimal is the pin.
pub post-IsGuarded :
    (url : ParsedUrl) (pin : Bytes) (peer : Peer) (body content_type : Bytes)
    → IsGuarded pin peer.certificate (post url pin peer body content_type)
unfolding post
post-IsGuarded url pin peer body content_type = elim (Option-cases peer.dial) [
  | inr (error, e) ↦ rw (post, e) (inr (refl, refl))
  | inl dialled ↦ elim (Option-cases peer.ssl_new) [
    | inr (error, e) ↦ rw (post, dialled, e) (inr (refl, refl))
    | inl made ↦ elim (Option-cases peer.handshake) [
      | inr (error, e) ↦ rw (post, dialled, made, e) (inr (refl, refl))
      | inl shaken ↦
          rw (post, dialled, made, shaken) (exchange-IsGuarded url pin peer body content_type)
    ]
  ]
]
