-- ===== src/Format/Fitted.antt =====
-- The texts of sysm-native/src/main/sysm_format.c fit their buffers.
use jni_demo_system_monitor.Base.{
  ℕ, ◌-◌, ◌<◌, refl, ltb, ◌==◌, Bool-cases, inl, inr, Bytes, codes, length, length-take, arith,
  if-both, ◌+◌, ltb→lt,
}
use jni_demo_system_monitor.Format.{
  Strerror, copy_name, error_str, strerror_get, strerror, errbuf_size, start_error, is_negative,
}

copy_name-bound : (text : Bytes) (buflen : ℕ) → 0 < buflen → length (copy_name text buflen) < buflen
unfolding copy_name
copy_name-bound text buflen pos = omega (arith, length-take (buflen - 1) text)

strerror_get-bound :
    (strerror_r : Strerror) (err buflen : ℕ)
    → 0 < buflen
    → length (strerror_r err buflen).1 < buflen
    → length (strerror_get strerror_r err buflen) < buflen
unfolding strerror_get
strerror_get-bound strerror_r err buflen pos fits =
    if-both (λ (t : Bytes). length t < buflen) (is_negative (strerror_r err buflen).0) _ _
      (λ _. copy_name-bound (codes "Unknown Error") buflen pos) (λ _. fits)

error_str-bound : (err : ℕ) → length (error_str err) < errbuf_size
unfolding error_str
error_str-bound err = elim (Bool-cases (err == start_error + 1)) [
  | inl e ↦
      rw e (ltb→lt (length (codes "This method has not been implemented yet")) errbuf_size refl)
  | inr e ↦ rw e (ltb→lt (length (codes "Error string not specified yet")) errbuf_size refl)
]

-- Where the handle's buffer and what `strerror_r` leaves in one of 255 bytes are terminated texts:
-- `sysm_strerror` gives a text of at most 254 bytes for every error, negative, of the system or of
-- the program.
pub strerror-bound :
    (strerror_r : Strerror) (errbuf : Bytes) (err : ℕ)
    → length errbuf < errbuf_size
    → length (strerror_r err errbuf_size).1 < errbuf_size
    → length (strerror strerror_r errbuf err) < errbuf_size
unfolding strerror
strerror-bound strerror_r errbuf err held fits =
    if-both (λ (t : Bytes). length t < errbuf_size) (is_negative err) _ _ (λ _. held)
      (λ _.
        if-both (λ (t : Bytes). length t < errbuf_size) (ltb start_error err) _ _
          (λ _. error_str-bound err)
          (λ _. strerror_get-bound strerror_r err errbuf_size (omega arith) fits))
