-- ===== src/Tcpcl/Messages/Accepted.antt =====
-- pkg/cla/tcpclv4/internal/msgs: what ReadMessage accepts, and when it can panic.
pub mod Endings
use dtn.Prelude.{
  ℕ, zero, suc, Option, ◌+◌, ◌*◌, ◌^◌, ◌<◌, ◌≤◌, ◌≡◌, ◌≢◌, refl, subst, List, [], ◌∷◌, Bool, true,
  false, ok, err, panic, guard, ◌>>=◌, length, take, drop, leb, ltb, leb→le, ◌==◌, bytes_eq, All,
  length-take, length-drop, Bool-cases, inl, inr, if◌then◌else◌, if-elim, arith,
}
use dtn.Tcpcl.Words.{
  ReadError, end_of_input, wrong_magic, Result, Reader, get_uint, read_bytes, read_uint,
}
use dtn.Tcpcl.Messages.{
  Message, xfer_segment, contact_header, contact_header_head, IsEncodable, valid_termination,
  valid_refusal, valid_rejection,
}
use dtn.Tcpcl.Messages.Reading.{
  read_header, unmarshal_as, unmarshal_session_termination, unmarshal_acknowledgement,
  unmarshal_refusal, unmarshal_keepalive, unmarshal_rejection, unmarshal_contact_header,
  read_buffer, skip_extensions, unmarshal_session_init, unmarshal_segment, new_message,
  read_message,
}
use dtn.Tcpcl.Messages.Accepted.Endings.{
  IsByte, Ends, IsInput, Ends-bind, Ends-guard, Ends-mono, bytes-Ends, uint-Ends, word-Ends,
  header-Ends,
}

module _ (Q : Type 0) where
  module _ (limit n : ℕ) where
    IsRead : Message × List ℕ → Type 0
    IsRead (m, r) = IsEncodable limit m × IsInput n r

    termination-Ends :
        (bytes : List ℕ)
        → IsInput (suc n) bytes
        → Ends Q IsRead (unmarshal_session_termination bytes)
    unfolding unmarshal_session_termination IsEncodable Ends IsRead
    termination-Ends bytes h = header-Ends Q IsRead 5 n bytes _ h λ r h.
        word-Ends Q IsRead 1 n r _ h λ flags r hf h. word-Ends Q IsRead 1 n r _ h λ reason r hr h.
          Ends-guard Q IsRead (valid_termination reason) _ _ λ valid. ((hf, valid), h)

    acknowledgement-Ends :
        (bytes : List ℕ) → IsInput (suc n) bytes → Ends Q IsRead (unmarshal_acknowledgement bytes)
    unfolding unmarshal_acknowledgement IsEncodable Ends IsRead
    acknowledgement-Ends bytes h = header-Ends Q IsRead 2 n bytes _ h λ r h.
        word-Ends Q IsRead 1 n r _ h λ flags r hf h.
          word-Ends Q IsRead 8 n r _ h
            λ tid r ht h. word-Ends Q IsRead 8 n r _ h λ len r hl h. ((hf, ht, hl), h)

    refusal-Ends :
        (bytes : List ℕ) → IsInput (suc n) bytes → Ends Q IsRead (unmarshal_refusal bytes)
    unfolding unmarshal_refusal IsEncodable Ends IsRead
    refusal-Ends bytes h = header-Ends Q IsRead 3 n bytes _ h λ r h.
        word-Ends Q IsRead 1 n r _ h λ reason r hr h.
          word-Ends Q IsRead 8 n r _ h
            λ tid r ht h. Ends-guard Q IsRead (valid_refusal reason) _ _ λ valid. ((valid, ht), h)

    keepalive-Ends :
        (bytes : List ℕ) → IsInput (suc n) bytes → Ends Q IsRead (unmarshal_keepalive bytes)
    unfolding unmarshal_keepalive IsEncodable Ends IsRead
    keepalive-Ends bytes h = header-Ends Q IsRead 4 n bytes _ h λ r h. (tt, h)

    rejection-Ends :
        (bytes : List ℕ) → IsInput (suc n) bytes → Ends Q IsRead (unmarshal_rejection bytes)
    unfolding unmarshal_rejection IsEncodable Ends IsRead
    rejection-Ends bytes h = header-Ends Q IsRead 6 n bytes _ h λ r h.
        word-Ends Q IsRead 1 n r _ h λ reason r hr h. word-Ends Q IsRead 1 n r _ h λ header r hh h.
          Ends-guard Q IsRead (valid_rejection reason) _ _ λ valid. ((valid, hh), h)

    contact_header-Ends :
        (bytes : List ℕ) → IsInput (suc n) bytes → Ends Q IsRead (unmarshal_contact_header bytes)
    unfolding unmarshal_contact_header IsEncodable Ends IsRead IsInput
    contact_header-Ends bytes (hn, h) =
        Ends-bind Q _ IsRead (read_bytes 5 bytes) _ (bytes-Ends Q 5 n bytes (omega arith, h))
          λ (head, r) (size, (all, left)). word-Ends Q IsRead 1 n r _ left λ flags r hf h.
            Ends-guard Q IsRead (bytes_eq head contact_header_head) wrong_magic
              (ok (contact_header flags, r)) λ valid. (hf, h)

    buffer-Ends :
        (k : ℕ) (bytes : List ℕ)
        → IsInput n bytes
        → (limit < k → Q)
        → Ends Q (λ (v, r). (length v ≡ k) × (k ≤ limit) × IsInput n r) (read_buffer limit k bytes)
    unfolding read_buffer Ends IsInput
    buffer-Ends k bytes (hn, h) large = elim (Bool-cases (leb k limit)) [
      | inl e ↦ rw e (
          Ends-mono Q _ _ (read_bytes k bytes)
            (λ (v, r) (size, (all, left)). (size, leb→le k limit e, left))
            (bytes-Ends Q k n bytes (omega arith, h)))
      | inr e ↦ rw e (large (ground (arith, e)))
    ]

    IsBuffer : ℕ → List ℕ × List ℕ → Type 0
    IsBuffer k (v, r) = (length v ≡ k) × (k ≤ limit) × IsInput n r

    payload-Ends :
        (k : ℕ) (bytes : List ℕ)
        → IsInput n bytes
        → (limit < k → Q)
        → Ends Q (IsBuffer k) (if ltb 0 k then read_buffer limit k bytes else ok ([], bytes))
    unfolding Ends IsBuffer
    payload-Ends k bytes h large = elim (Bool-cases (ltb 0 k)) [
      | inl e ↦ rw e (buffer-Ends k bytes h large)
      | inr e ↦ rw e (ground (arith, e), ground (arith, e), h)
    ]

    extensions-Ends :
        {B : Type 0} (R : B → Type 0) (bytes : List ℕ) (k : List ℕ → Result B)
        → 2 ^ 32 ≤ limit
        → IsInput n bytes
        → ((r : List ℕ) → IsInput n r → Ends Q R (k r))
        → Ends Q R (skip_extensions limit bytes >>= k)
    unfolding skip_extensions Ends IsBuffer
    extensions-Ends R bytes k large h next =
        Ends-bind Q (IsInput n) R (skip_extensions limit bytes) k
          (word-Ends Q (IsInput n) 4 n bytes _ h λ len r hl h.
            Ends-bind Q (IsBuffer len) _ _ _ (payload-Ends len r h (λ more. absurd (omega arith)))
              λ (v, r) (size, fits, left). left)
          next

    session_init-Ends :
        (bytes : List ℕ)
        → 2 ^ 32 ≤ limit
        → IsInput (suc n) bytes
        → Ends Q IsRead (unmarshal_session_init limit bytes)
    unfolding unmarshal_session_init IsEncodable Ends IsRead IsBuffer
    session_init-Ends bytes large h = header-Ends Q IsRead 7 n bytes _ h λ r h.
        word-Ends Q IsRead 2 n r _ h λ interval r hk h.
          word-Ends Q IsRead 8 n r _ h λ segment r hs h.
            word-Ends Q IsRead 8 n r _ h λ transfer r ht h.
              word-Ends Q IsRead 2 n r _ h λ len r hl h.
                Ends-bind Q (IsBuffer len) IsRead (read_buffer limit len r) _
                  (buffer-Ends len r h λ more. absurd (omega arith))
                  λ (node, r) (size, fits, h).
                    extensions-Ends IsRead r _ large h
                      λ r h. ((hk, hs, ht, omega (arith, size), omega (arith, size)), h)

    segment-Ends :
        (bytes : List ℕ)
        → 2 ^ 32 ≤ limit
        → Q
        → IsInput (suc n) bytes
        → Ends Q IsRead (unmarshal_segment limit bytes)
    unfolding unmarshal_segment IsEncodable Ends IsRead IsBuffer
    segment-Ends bytes large q h = header-Ends Q IsRead 1 n bytes _ h λ r h.
        word-Ends Q IsRead 1 n r _ h λ segment_flags r hf h.
          word-Ends Q IsRead 8 n r _ h λ tid r ht h. extensions-Ends IsRead r _ large h λ r h.
            word-Ends Q IsRead 8 n r _ h λ len r hl h.
              Ends-bind Q (IsBuffer len) IsRead _ _ (payload-Ends len r h λ more. q)
                λ (payload, r) (size, fits, h).
                  ((hf, ht, omega (arith, size), omega (arith, size)), h)

module _ (Q : Type 0) (limit n : ℕ) (large : 2 ^ 32 ≤ limit) (bytes : List ℕ)
    (h : IsInput (suc n) bytes) where
  DispatchEnds : ℕ → Option (Reader Message) → Type 0
  DispatchEnds code unmarshal = Ends Q (IsRead Q limit n) (unmarshal_as limit code unmarshal bytes)

  dispatch-Ends : (code : ℕ) → (code ≡ 1 → Q) → DispatchEnds code (new_message limit code)
  unfolding DispatchEnds new_message unmarshal_as Ends
  dispatch-Ends code q =
      if-elim (DispatchEnds code) (code == 7) _ _ (λ _. session_init-Ends Q limit n bytes large h)
        (λ _.
          if-elim (DispatchEnds code) (code == 5) _ _ (λ _. termination-Ends Q limit n bytes h)
            (λ _.
              if-elim (DispatchEnds code) (code == 1) _ _
                (λ e. segment-Ends Q limit n bytes large (q (ground (arith, e))) h)
                (λ _.
                  if-elim (DispatchEnds code) (code == 2) _ _
                    (λ _. acknowledgement-Ends Q limit n bytes h)
                    (λ _.
                      if-elim (DispatchEnds code) (code == 3) _ _
                        (λ _. refusal-Ends Q limit n bytes h)
                        (λ _.
                          if-elim (DispatchEnds code) (code == 4) _ _
                            (λ _. keepalive-Ends Q limit n bytes h)
                            (λ _.
                              if-elim (DispatchEnds code) (code == 6) _ _
                                (λ _. rejection-Ends Q limit n bytes h)
                                (λ _.
                                  if-elim (DispatchEnds code) (code == 0x64) _ _
                                    (λ _. contact_header-Ends Q limit n bytes h) (λ _. tt))))))))

first_octet : (b : ℕ) (bytes : List ℕ) → read_uint 1 (b ∷ bytes) ≡ ok (b, bytes)
unfolding read_uint read_bytes get_uint
first_octet b bytes =
    let fits : leb 1 (length (b ∷ bytes)) ≡ true = ground arith in
    let same : 0 * 256 + b ≡ b = omega arith in rw (fits, same) refl

pub read_message-nil : (limit : ℕ) → read_message limit [] ≡ err end_of_input
unfolding read_message read_uint read_bytes
read_message-nil limit = refl

read_message-Ends :
    (Q : Type 0) (limit b : ℕ) (bytes : List ℕ)
    → 2 ^ 32 ≤ limit
    → All IsByte (b ∷ bytes)
    → (b ≡ 1 → Q)
    → Ends Q (IsRead Q limit (length bytes)) (read_message limit (b ∷ bytes))
unfolding read_message DispatchEnds IsInput
read_message-Ends Q limit b bytes large all q =
    rw (first_octet b bytes)
      (dispatch-Ends Q limit (length bytes) large (b ∷ bytes) (omega arith, all) b q)

-- What is left of an input, and the message that was read.
unfoldable pub IsProper : ℕ → List ℕ → Message × List ℕ → Type 0
IsProper limit bytes (m, rest) =
    IsEncodable limit m × (length rest < length bytes) × All IsByte rest

-- If allocations of 2 ^ 32 octets are possible, every message that ReadMessage returns has fields
-- in their ranges and a valid reason, and less octets are left than there were.
pub read_message-IsProper :
    (limit : ℕ) (bytes : List ℕ) (m : Message) (rest : List ℕ)
    → 2 ^ 32 ≤ limit
    → All IsByte bytes
    → read_message limit bytes ≡ ok (m, rest)
    → IsProper limit bytes (m, rest)
unfolding IsProper Ends IsRead IsInput
read_message-IsProper limit [] m rest large all h = let e = read_message-nil limit in cc
read_message-IsProper limit (b ∷ bytes) m rest large all h =
    let ends = read_message-Ends Unit limit b bytes large all (λ _. tt) in
    let (encodable, (fewer, left)) = subst (Ends Unit (IsRead Unit limit (length bytes))) h ends in
    (encodable, omega arith, left)

-- If allocations of 2 ^ 32 octets are possible, ReadMessage does not panic on octets that are not
-- those of an XFER_SEGMENT.
pub read_message-panic :
    (limit b : ℕ) (bytes : List ℕ)
    → 2 ^ 32 ≤ limit
    → All IsByte (b ∷ bytes)
    → b ≢ xfer_segment
    → read_message limit (b ∷ bytes) ≢ panic
unfolding Ends
read_message-panic limit b bytes large all ne h =
    let ends = read_message-Ends (b ≡ 1) limit b bytes large all (λ e. e) in
    ne (subst (Ends (b ≡ 1) (IsRead (b ≡ 1) limit (length bytes))) h ends)
