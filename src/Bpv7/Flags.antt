-- ===== src/Bpv7/Flags.antt =====
-- bundle_control_flags.go and block_control_flags.go: the bundle and block processing control
-- flags, as masks on an unsigned 64-bit word.
use dtn.Prelude.{
  ℕ, ◌*◌, ◌/◌, ◌≡◌, sym, ap, ◌∙◌, List, [], ◌∷◌, ◌++◌, Bool, true, false, not, ◌&&◌, ◌||◌, bit_and,
  bit_or, arith, ◌==◌, if◌then◌else◌,
}
use dtn.Prelude.Bits.{bit_and-one, bit_and-even, bit_or-one, and_not, and_not-one}
use dtn.Bpv7.Errors.{Error, fragment_and_must_not_fragmented, admin_record_status_request}

abbrev pub is_fragment : ℕ
is_fragment = 0x000001

abbrev pub administrative_record_payload : ℕ
administrative_record_payload = 0x000002

abbrev pub must_not_fragmented : ℕ
must_not_fragmented = 0x000004

abbrev pub status_request_reception : ℕ
status_request_reception = 0x004000

abbrev pub status_request_forward : ℕ
status_request_forward = 0x010000

abbrev pub status_request_delivery : ℕ
status_request_delivery = 0x020000

abbrev pub status_request_deletion : ℕ
status_request_deletion = 0x040000

abbrev pub replicate_block : ℕ
replicate_block = 0x01

abbrev pub status_report_flag : ℕ
status_report_flag = 0x02

abbrev pub delete_bundle : ℕ
delete_bundle = 0x04

abbrev pub remove_block : ℕ
remove_block = 0x10

-- `Has`, of both kinds of flags.
unfoldable pub has : ℕ → ℕ → Bool
has bcf flag = not (bit_and bcf flag == 0)

-- None of the four status report requests is set.
unfoldable pub no_status_requests : ℕ → Bool
no_status_requests bcf =
    not (has bcf status_request_reception)
    && not (has bcf status_request_forward)
    && not (has bcf status_request_delivery)
    && not (has bcf status_request_deletion)

-- BundleControlFlags.CheckValid
unfoldable pub check_flags : ℕ → List Error
check_flags bcf =
    (if has bcf is_fragment && has bcf must_not_fragmented
      then fragment_and_must_not_fragmented ∷ []
      else [])
    ++ (if not (has bcf administrative_record_payload) || no_status_requests bcf
        then []
        else admin_record_status_request ∷ [])

-- The flags of a fragment, and those of the bundle made of its fragments.
pub has-set_fragment : (bcf : ℕ) → has (bit_or bcf is_fragment) is_fragment ≡ true
unfolding has
has-set_fragment bcf = ground (arith, bit_or-one bcf, bit_and-one (bit_or bcf 1))

pub has-clear_fragment : (bcf : ℕ) → has (and_not bcf is_fragment) is_fragment ≡ false
unfolding has
has-clear_fragment bcf = ground (arith, and_not-one bcf, bit_and-one (and_not bcf 1))

bit_and-halves : (a b k : ℕ) → a / 2 ≡ b / 2 → bit_and a (2 * k) ≡ bit_and b (2 * k)
bit_and-halves a b k e = bit_and-even a k ∙ ap (λ t. bit_and t k * 2) e ∙ sym (bit_and-even b k)

-- Setting or clearing it changes no other flag.
pub has_other-set_fragment : (bcf k : ℕ) → has (bit_or bcf is_fragment) (2 * k) ≡ has bcf (2 * k)
unfolding has
has_other-set_fragment bcf k =
    ap (λ t. not (t == 0)) (bit_and-halves (bit_or bcf 1) bcf k (omega (arith, bit_or-one bcf)))

pub has_other-clear_fragment : (bcf k : ℕ) → has (and_not bcf is_fragment) (2 * k) ≡ has bcf (2 * k)
unfolding has
has_other-clear_fragment bcf k =
    ap (λ t. not (t == 0)) (bit_and-halves (and_not bcf 1) bcf k (omega (arith, and_not-one bcf)))
