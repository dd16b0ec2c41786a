-- ===== src/Transport/Absent.antt =====
-- src/transport_none.cpp: the transport of a build without TLS.
use nano_sensor.Base.{false}
use nano_sensor.Text.{Bytes, codes}
use nano_sensor.Transport.Reply.{Result}
use nano_sensor.Transport.Openssl.{refuse}

unfoldable pub post_absent : Bytes → Result
post_absent body =
    refuse false (codes "this build has no TLS backend: OpenSSL was not found at configure time")

-- The error text; a transport is returned all the same.
unfoldable pub make_absent : Bytes
make_absent = codes "no TLS backend compiled in (install libssl-dev and reconfigure)"
