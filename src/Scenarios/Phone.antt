-- ===== src/Scenarios/Phone.antt =====
-- The telephone number of one contact, written in three ways.
use realesatecrm.Base.{arith, ◌≡◌, refl, ◌++◌, true, Text, codes}
use realesatecrm.Core.Errors.{ok}
use realesatecrm.Contacts.Phone.{is_digits, normalize_phone}
use realesatecrm.Contacts.Numbers.{
  International, SameNumber, both, both_end, ignored_left, normalize_phone-separators,
  normalize_phone-idempotent, normalize_phone-indian,
}

abbrev number : Text
number = codes "9876543210"

abbrev spaced : Text
spaced = codes " (+91) 98765-43210"

abbrev international : Text
international = codes "+919876543210"

-- Two blanks, two parentheses and a hyphen.
same_number : SameNumber spaced international
same_number = ignored_left b' ' (ground arith) (
    ignored_left b'(' (ground arith) (
      both b'+' (
        both b'9' (
          both b'1' (
            ignored_left b')' (ground arith) (
              ignored_left b' ' (ground arith) (
                both b'9' (
                  both b'8' (
                    both b'7' (
                      both b'6' (
                        both b'5' (
                          ignored_left b'-' (ground arith) (
                            both b'4'
                              (both b'3' (both b'2' (both b'1' (both b'0' both_end)))))))))))))))))

normalize_phone-separators_example : normalize_phone spaced ≡ normalize_phone international
normalize_phone-separators_example = normalize_phone-separators same_number

number_normalizes : normalize_phone number ≡ ok international
unfolding normalize_phone is_digits
number_normalizes = refl

normalize_phone-idempotent_example :
    (normalize_phone international ≡ ok international) × International international
normalize_phone-idempotent_example = normalize_phone-idempotent number number_normalizes

digits : is_digits number ≡ true
unfolding is_digits
digits = refl

normalize_phone-indian_example :
    (normalize_phone number ≡ ok (codes "+91" ++ number))
    × (normalize_phone (codes "91" ++ number) ≡ ok (codes "+91" ++ number))
    × (normalize_phone (codes "+91" ++ number) ≡ ok (codes "+91" ++ number))
normalize_phone-indian_example = normalize_phone-indian number digits refl
