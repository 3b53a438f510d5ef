-- ===== src/Replay/Checksum/Laws.antt =====
-- include/replay/checksum.hpp: the digest fits its word, and a changed byte always changes it.
use jisa.Prelude.{
  ℕ, ◌*◌, ◌%◌, ◌^◌, ◌<◌, ◌≡◌, ◌≢◌, ◌∙◌, sym, ap, refl, List, [], ◌∷◌, ◌++◌, arith, All, All-append,
  All-append_right, subst,
}
use jisa.Prelude.Bits.{bit_xor, bit_xor-lt, bit_xor_twice_left, bit_xor_twice_right}
use jisa.Core.Message.{Message}
use jisa.Replay.Format.{Bytes, put_u32, put_u64}
use jisa.Replay.Checksum.{
  fnv_prime, fnv_offset_basis, fold_byte, fold_bytes, content_bytes, update, update_all, digest,
}

abbrev IsByte : ℕ → Type 0
IsByte b = b < 256

fold_byte-lt : (h b : ℕ) → fold_byte h b < 2 ^ 64
unfolding fold_byte
fold_byte-lt h b = omega arith

-- The prime is odd, so it has an inverse modulo 2 ^ 64.
abbrev inverse_prime : ℕ
inverse_prime = 14886173955864302971

times_inverse : (x : ℕ) → x < 2 ^ 64 → x * fnv_prime % 2 ^ 64 * inverse_prime % 2 ^ 64 ≡ x
times_inverse x p = omega arith

times_prime_cancel :
    (x y : ℕ) → x < 2 ^ 64 → y < 2 ^ 64 → x * fnv_prime % 2 ^ 64 ≡ y * fnv_prime % 2 ^ 64 → x ≡ y
times_prime_cancel x y p q e =
    sym (times_inverse x p) ∙ ap (λ t. t * inverse_prime % 2 ^ 64) e ∙ times_inverse y q

fold_byte_cancel :
    (h h' b : ℕ) → h < 2 ^ 64 → h' < 2 ^ 64 → IsByte b → fold_byte h b ≡ fold_byte h' b → h ≡ h'
unfolding fold_byte
fold_byte_cancel h h' b p q r e =
    sym (bit_xor_twice_right 64 h b p (omega arith))
    ∙ ap (λ t. bit_xor t b)
        (times_prime_cancel (bit_xor h b) (bit_xor h' b) (bit_xor-lt 64 h b p (omega arith))
          (bit_xor-lt 64 h' b q (omega arith)) e)
    ∙ bit_xor_twice_right 64 h' b q (omega arith)

fold_byte_cancel_byte :
    (h b b' : ℕ) → h < 2 ^ 64 → IsByte b → IsByte b' → fold_byte h b ≡ fold_byte h b' → b ≡ b'
unfolding fold_byte
fold_byte_cancel_byte h b b' p q r e =
    sym (bit_xor_twice_left 64 h b p (omega arith))
    ∙ ap (bit_xor h) (
        times_prime_cancel (bit_xor h b) (bit_xor h b') (bit_xor-lt 64 h b p (omega arith))
          (bit_xor-lt 64 h b' p (omega arith)) e)
    ∙ bit_xor_twice_left 64 h b' p (omega arith)

fold_bytes-lt : (h : ℕ) (bs : Bytes) → h < 2 ^ 64 → fold_bytes h bs < 2 ^ 64
unfolding fold_bytes
fold_bytes-lt h [] p = p
fold_bytes-lt h (b ∷ bs) p = fold_bytes-lt (fold_byte h b) bs (fold_byte-lt h b)

fold_bytes-append :
    (h : ℕ) (xs ys : Bytes) → fold_bytes h (xs ++ ys) ≡ fold_bytes (fold_bytes h xs) ys
unfolding fold_bytes
fold_bytes-append h [] ys = refl
fold_bytes-append h (x ∷ xs) ys = fold_bytes-append (fold_byte h x) xs ys

-- The bytes that a stream feeds to the hash.
abbrev pub stream_bytes : List Message → Bytes
stream_bytes [] = []
stream_bytes (m ∷ ms) = content_bytes m ++ stream_bytes ms

update_all-fold_bytes :
    (h : ℕ) (ms : List Message) → update_all h ms ≡ fold_bytes h (stream_bytes ms)
unfolding update_all update fold_bytes
update_all-fold_bytes h [] = refl
update_all-fold_bytes h (m ∷ ms) =
    update_all-fold_bytes (fold_bytes h (content_bytes m)) ms
    ∙ sym (fold_bytes-append h (content_bytes m) (stream_bytes ms))

content_bytes-IsByte : (m : Message) → All IsByte (content_bytes m)
unfolding content_bytes put_u32 put_u64
content_bytes-IsByte m = omega arith

stream_bytes-IsByte : (ms : List Message) → All IsByte (stream_bytes ms)
stream_bytes-IsByte [] = tt
stream_bytes-IsByte (m ∷ ms) =
    All-append IsByte (content_bytes m) (stream_bytes ms) (content_bytes-IsByte m)
      (stream_bytes-IsByte ms)

-- No later byte hides a difference in the hash.
fold_bytes_cancel :
    (h h' : ℕ) (bs : Bytes)
    → h < 2 ^ 64
    → h' < 2 ^ 64
    → All IsByte bs
    → fold_bytes h bs ≡ fold_bytes h' bs
    → h ≡ h'
unfolding fold_bytes
fold_bytes_cancel h h' [] p q v e = e
fold_bytes_cancel h h' (b ∷ bs) p q v e = fold_byte_cancel h h' b p q v.0 (
    fold_bytes_cancel (fold_byte h b) (fold_byte h' b) bs (fold_byte-lt h b) (fold_byte-lt h' b) v.1
      e)

-- The digest of every stream is a 64-bit number.
pub digest-lt : (ms : List Message) → digest ms < 2 ^ 64
unfolding digest
digest-lt ms =
    rw (update_all-fold_bytes fnv_offset_basis ms)
      (fold_bytes-lt fnv_offset_basis (stream_bytes ms) (omega arith))

-- The digest, cut at a byte.
digest_at :
    (ms : List Message) (before after : Bytes) (b : ℕ)
    → stream_bytes ms ≡ before ++ (b ∷ after)
    → digest ms ≡ fold_bytes (fold_byte (fold_bytes fnv_offset_basis before) b) after
unfolding digest fold_bytes
digest_at ms before after b e =
    update_all-fold_bytes fnv_offset_basis ms
    ∙ ap (fold_bytes fnv_offset_basis) e
    ∙ fold_bytes-append fnv_offset_basis before (b ∷ after)

bytes_at :
    (ms : List Message) (before after : Bytes) (b : ℕ)
    → stream_bytes ms ≡ before ++ (b ∷ after)
    → IsByte b × All IsByte after
bytes_at ms before after b e =
    All-append_right IsByte before (b ∷ after) (subst (All IsByte) e (stream_bytes-IsByte ms))

-- Two streams whose content differs in exactly one byte, anywhere, have different digests.
pub digest_detects_byte :
    (ms ms' : List Message) (before after : Bytes) (b b' : ℕ)
    → stream_bytes ms ≡ before ++ (b ∷ after)
    → stream_bytes ms' ≡ before ++ (b' ∷ after)
    → b ≢ b'
    → digest ms ≢ digest ms'
digest_detects_byte ms ms' before after b b' e e' ne same =
    let h = fold_bytes fnv_offset_basis before in
    let h_fits = fold_bytes-lt fnv_offset_basis before (omega arith) in
    let v = bytes_at ms before after b e in
    let v' = bytes_at ms' before after b' e' in
    ne (
      fold_byte_cancel_byte h b b' h_fits v.0 v'.0 (
        fold_bytes_cancel (fold_byte h b) (fold_byte h b') after (fold_byte-lt h b)
          (fold_byte-lt h b') v.1
          (sym (digest_at ms before after b e) ∙ same ∙ digest_at ms' before after b' e')))
