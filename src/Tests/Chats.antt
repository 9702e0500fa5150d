-- ===== src/Tests/Chats.antt =====
-- The allowed chats of a configuration.
use patrizio_bot.Prelude.{
  ◌≡◌, refl, true, false, ◌||◌, not, any, All, [], ◌∷◌, map, pos, negsuc, arith,
}
use patrizio_bot.Text.{codes, join}
use patrizio_bot.Config.{string_value, allowed_chat_ids}
use patrizio_bot.Config.Chats.{is_id, is_number, is_allowed_chat-join}
use patrizio_bot.Config.Printed.{Numeral, AreDigits, print_numeral, allowed_chat_ids-join}
use patrizio_bot.Bot.Assist.{is_allowed_chat}
use patrizio_bot.Text.Laws.{Lacks}
use patrizio_bot.Tests.Fixtures.{absent-Lacks}

abbrev seven : Numeral
seven = record { spaces = 0; negative = false; low = 7; high = [] }

abbrev minus_twelve : Numeral
minus_twelve = record { spaces = 1; negative = true; low = 2; high = 1 ∷ [] }

-- 1 << 63
abbrev too_big : Numeral
too_big = record {
  spaces = 2;
  negative = false;
  low = 8;
  high = 0 ∷ 8 ∷ 5 ∷ 7 ∷ 7 ∷ 4 ∷ 5 ∷ 8 ∷ 6 ∷ 3 ∷ 0 ∷ 2 ∷ 7 ∷ 3 ∷ 3 ∷ 2 ∷ 2 ∷ 9 ∷ [];
}

text_of_three :
    join (codes ",") (map print_numeral (seven ∷ minus_twelve ∷ too_big ∷ []))
    ≡ codes "7, -12,  9223372036854775808"
unfolding join
text_of_three = refl

too_big-AreDigits : AreDigits too_big
too_big-AreDigits = (
  omega arith,
  (
    omega arith,
    (
      omega arith,
      (
        omega arith,
        (
          omega arith,
          (
            omega arith,
            (
              omega arith,
              (
                omega arith,
                (
                  omega arith,
                  (
                    omega arith,
                    (
                      omega arith,
                      (
                        omega arith,
                        (
                          omega arith,
                          (
                            omega arith,
                            (
                              omega arith,
                              (omega arith, (omega arith, (omega arith, (omega arith, tt)))),
                            ),
                          ),
                        ),
                      ),
                    ),
                  ),
                ),
              ),
            ),
          ),
        ),
      ),
    ),
  ),
)

allowed_chat_ids-join_example :
    allowed_chat_ids
      (string_value (join (codes ",") (map print_numeral (seven ∷ minus_twelve ∷ too_big ∷ []))))
    ≡ pos 7 ∷ negsuc 11 ∷ []
allowed_chat_ids-join_example =
    allowed_chat_ids-join seven (minus_twelve ∷ too_big ∷ [])
      ((omega arith, tt), ((omega arith, (omega arith, tt)), (too_big-AreDigits, tt)))

no_commas : All (Lacks b',') (codes "chat 7" ∷ codes " x" ∷ [])
no_commas = (absent-Lacks b',' (codes "chat 7") refl, (absent-Lacks b',' (codes " x") refl, tt))

is_allowed_chat-join_example :
    is_allowed_chat
      (allowed_chat_ids (string_value (join (codes ",") (codes "chat 7" ∷ codes " x" ∷ []))))
      8
    ≡ (any (is_id 8) (codes "chat 7" ∷ codes " x" ∷ [])
        || not (any is_number (codes "chat 7" ∷ codes " x" ∷ [])))
is_allowed_chat-join_example = is_allowed_chat-join 8 (codes "chat 7") (codes " x" ∷ []) no_commas
