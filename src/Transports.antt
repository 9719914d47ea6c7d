-- ===== src/Transports.antt =====
-- The transports of backend/src, up to the call of the network: what is sent, to whom, and when
-- nothing is. Whether a gateway takes a request, and the encodings of a request's body and of its
-- credentials, are parameters.
pub mod Sms
pub mod Push
pub mod Token
