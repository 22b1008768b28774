-- ===== src/DnsTools/Spf/Masks.antt =====
-- The masks of `a` and `mx`.
use mrt_post_office.Prelude.{
  ℕ, ◌≤◌, Bool, true, false, not, ◌||◌, ◌≡◌, ◌↔◌, refl, some, [], ◌∷◌, ◌++◌, Text, nat_eq, text_eq,
  inl, inr, ap, sym, ◌∙◌, if_true, arith, ltb, Bool-cases,
}
use mrt_post_office.Prelude.Chars.{
  split_char, split_char-absent, split_char-append, decimal, has_char,
}
use mrt_post_office.Prelude.Result.{ok, err, err-ok, ◌>>=◌}
use mrt_post_office.DnsTools.Records.{value_error}
use mrt_post_office.DnsTools.Spf.{
  refuse_if, unpack, are_digits, check_mask, mask_of, check_domain_and_mask,
}

has_char_at : (c : ℕ) (s t : Text) → has_char c (s ++ c ∷ t) ≡ true
has_char_at c [] t = ground arith
has_char_at c (x ∷ s) t = ground (arith, has_char_at c s t)

has_char-append : (c : ℕ) (s t : Text) → has_char c s ≡ false → has_char c (s ++ t) ≡ has_char c t
has_char-append c [] t h = refl
has_char-append c (x ∷ s) t h = ground (arith, has_char-append c s t)

-- the call, once the text is taken apart at its colon
at_colon :
    (mechanism rest : Text)
    → has_char b':' mechanism ≡ false
    → has_char b':' rest ≡ false
    → check_domain_and_mask (mechanism ++ b':' ∷ rest) ≡ (mask_of rest >>= check_mask)
unfolding check_domain_and_mask
at_colon mechanism rest clear clear_rest =
    if_true _ (has_char_at b':' mechanism rest)
    ∙ ap (λ parts. unpack parts >>= (λ parts. mask_of parts.1 >>= check_mask))
        (split_char-append b':' mechanism rest clear
          ∙ ap (λ ts. mechanism ∷ ts) (split_char-absent b':' rest clear_rest))

mask_test :
    (digits : Bool) (n : ℕ)
    → (refuse_if (not digits || ltb 32 n) ≡ ok tt) ↔ ((digits ≡ true) × (n ≤ 32))
mask_test true n = (
  (λ h. (
    refl,
    elim (Bool-cases (ltb 32 n)) [
      | inl e ↦ err-ok (sym (ap refuse_if e) ∙ h)
      | inr e ↦ ground arith
    ],
  )),
  (λ (d, low). let e : ltb 32 n ≡ false = ground arith in ap refuse_if e),
)
mask_test false n = ((λ h. err-ok h), (λ (d, low). cc))

pub check_domain_and_mask-le :
    (mechanism domain : Text) (c : ℕ) (mask : Text)
    → has_char b':' mechanism ≡ false
    → has_char b':' (domain ++ b'/' ∷ c ∷ mask) ≡ false
    → has_char b'/' domain ≡ false
    → has_char b'/' (c ∷ mask) ≡ false
    → (check_domain_and_mask (mechanism ++ b':' ∷ (domain ++ b'/' ∷ c ∷ mask)) ≡ ok tt)
      ↔ ((are_digits (c ∷ mask) ≡ true) × (decimal 0 (c ∷ mask) ≤ 32))
check_domain_and_mask-le mechanism domain c mask clear clear_rest clear_domain clear_mask =
    let whole =
      at_colon mechanism (domain ++ b'/' ∷ c ∷ mask) clear clear_rest
      ∙ ap (λ o. o >>= check_mask)
          (if_true _ (has_char_at b'/' domain (c ∷ mask))
            ∙ ap (λ parts. unpack parts >>= (λ parts. ok (some parts.1)))
                (split_char-append b'/' domain (c ∷ mask) clear_domain
                  ∙ ap (λ ts. domain ∷ ts) (split_char-absent b'/' (c ∷ mask) clear_mask))) in
    let (there, back) = mask_test (are_digits (c ∷ mask)) (decimal 0 (c ∷ mask)) in
    ((λ h. there (sym whole ∙ h)), (λ h. whole ∙ back h))

-- A second mask, as RFC 7208 has it for IPv6, is an exception that the callers do not expect.
pub check_domain_and_mask_dual :
    (mechanism domain mask more : Text)
    → has_char b':' mechanism ≡ false
    → has_char b':' (domain ++ b'/' ∷ (mask ++ b'/' ∷ b'/' ∷ more)) ≡ false
    → has_char b'/' domain ≡ false
    → has_char b'/' mask ≡ false
    → has_char b'/' more ≡ false
    → check_domain_and_mask (mechanism ++ b':' ∷ (domain ++ b'/' ∷ (mask ++ b'/' ∷ b'/' ∷ more)))
      ≡ err value_error
unfolding split_char
check_domain_and_mask_dual mechanism domain mask more clear clear_rest clear_domain clear_mask
      last =
    at_colon mechanism (domain ++ b'/' ∷ (mask ++ b'/' ∷ b'/' ∷ more)) clear clear_rest
    ∙ ap (λ o. o >>= check_mask)
        (if_true _ (has_char_at b'/' domain (mask ++ b'/' ∷ b'/' ∷ more))
          ∙ ap (λ parts. unpack parts >>= (λ parts. ok (some parts.1)))
              (split_char-append b'/' domain (mask ++ b'/' ∷ b'/' ∷ more) clear_domain
                ∙ ap (λ ts. domain ∷ ts)
                    (split_char-append b'/' mask (b'/' ∷ more) clear_mask
                      ∙ ap (λ ts. mask ∷ [] ∷ ts) (split_char-absent b'/' more last))))
