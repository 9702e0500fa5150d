-- ===== src/Command/RoundTrip.antt =====
-- A filter command written with a parenthesised list of quoted triggers is read back as it was.
use patrizio_bot.Prelude.{
  ℕ, zero, suc, ◌≤◌, ◌≡◌, refl, ap, ◌∙◌, false, none, List, [], ◌∷◌, ◌++◌, arith, append_assoc,
  length, length-append, All,
}
use patrizio_bot.Text.{Text, codes, is_empty, strip_prefix, cut, trim_space, trim_right, is_space}
use patrizio_bot.Text.Laws.{Lacks, cut-append, trim_space-cons_space, IsTrimmed}
use patrizio_bot.Text.Ends.{
  EndsSolid, EndsSolid-append, quote-EndsSolid, trim_space-solid, IsTrimmed-EndsSolid,
}
use patrizio_bot.Command.{
  ok, Response, media, text, reaction, trigger_round, trigger_loop, some_triggers,
  parse_comma_separated_triggers, parse_response, filter_arguments, parenthesized,
  parse_filter_command, command_filter,
}

-- `"first", "second", …`
listing : Text → List Text → Text
listing t [] = b'"' ∷ (t ++ b'"' ∷ [])
listing t (u ∷ us) = b'"' ∷ (t ++ (b'"' ∷ b',' ∷ b' ' ∷ listing u us))

listing-EndsSolid : (t : Text) (us : List Text) → EndsSolid (listing t us)
unfolding listing
listing-EndsSolid t [] = EndsSolid-append (b'"' ∷ t) (b'"' ∷ []) quote-EndsSolid
listing-EndsSolid t (u ∷ us) =
    EndsSolid-append (b'"' ∷ t) (b'"' ∷ b',' ∷ b' ' ∷ listing u us)
      (EndsSolid-append (b'"' ∷ b',' ∷ b' ' ∷ []) (listing u us) (listing-EndsSolid u us))

abbrev pub IsListable : Text → Type 0
IsListable t = (is_empty t ≡ false) × Lacks b'"' t × Lacks b')' t

trim_space-listing : (t : Text) (us : List Text) → trim_space (listing t us) ≡ listing t us
unfolding listing is_space
trim_space-listing t [] = trim_space-solid b'"' (t ++ b'"' ∷ []) refl (listing-EndsSolid t [])
trim_space-listing t (u ∷ us) =
    trim_space-solid b'"' (t ++ (b'"' ∷ b',' ∷ b' ' ∷ listing u us)) refl
      (listing-EndsSolid t (u ∷ us))

-- The last round, and a round before it.
trigger_round-last : (t : Text) → IsListable t → trigger_round b'"' (t ++ b'"' ∷ []) ≡ ok (t, [])
unfolding trigger_round trim_space
trigger_round-last t h = rw (cut-append b'"' t [] h.1, trigger_round) (rw h.0)

trigger_round-more :
    (t u : Text) (us : List Text)
    → IsListable t
    → trigger_round b'"' (t ++ (b'"' ∷ b',' ∷ b' ' ∷ listing u us)) ≡ ok (t, listing u us)
unfolding trigger_round
trigger_round-more t u us h =
    rw (cut-append b'"' t (b',' ∷ b' ' ∷ listing u us) h.1, trigger_round)
      (rw h.0 (
        rw (listing-EndsSolid u us).0
          (rw (listing-EndsSolid u us).1 (ap (λ s. ok (t, s)) (trim_space-listing u us)))))

some_triggers-append :
    (acc : List Text) (t : Text) → some_triggers (acc ++ t ∷ []) ≡ ok (acc ++ t ∷ [])
some_triggers-append [] t = refl
some_triggers-append (x ∷ acc) t = refl

trigger_loop-nil :
    (fuel : ℕ) (acc : List Text) (t : Text)
    → trigger_loop fuel (acc ++ t ∷ []) [] ≡ ok (acc ++ t ∷ [])
unfolding trigger_loop
trigger_loop-nil zero acc t = some_triggers-append acc t
trigger_loop-nil (suc fuel) acc t = some_triggers-append acc t

listing_shorter :
    (t u : Text) (us : List Text) (n : ℕ)
    → length (listing t (u ∷ us)) ≤ suc n
    → length (listing u us) ≤ n
unfolding listing
listing_shorter t u us n h = omega (arith, length-append t (b'"' ∷ b',' ∷ b' ' ∷ listing u us), h)

trigger_loop-listing :
    (fuel : ℕ) (acc : List Text) (t : Text) (us : List Text)
    → length (listing t us) ≤ fuel
    → IsListable t
    → All IsListable us
    → trigger_loop fuel acc (listing t us) ≡ ok (acc ++ t ∷ us)
unfolding trigger_loop listing
trigger_loop-listing zero acc t [] le h k = absurd (omega arith)
trigger_loop-listing zero acc t (u ∷ us) le h k = absurd (omega arith)
trigger_loop-listing (suc fuel) acc t [] le h k =
    rw (trigger_round-last t h) (trigger_loop-nil fuel acc t)
trigger_loop-listing (suc fuel) acc t (u ∷ us) le h k = rw (trigger_round-more t u us h) (
    trigger_loop-listing fuel (acc ++ t ∷ []) u us (listing_shorter t u us fuel le) k.0 k.1
    ∙ ap ok (append_assoc acc (t ∷ []) (u ∷ us)))

parse-listing :
    (t : Text) (us : List Text)
    → IsListable t
    → All IsListable us
    → parse_comma_separated_triggers (listing t us) ≡ ok (t ∷ us)
unfolding parse_comma_separated_triggers
parse-listing t us h k =
    rw trim_space-listing (trigger_loop-listing (length (listing t us)) [] t us (omega arith) h k)

Lacks-append : (c : ℕ) (s t : Text) → Lacks c s → Lacks c t → Lacks c (s ++ t)
Lacks-append c [] t h k = k
Lacks-append c (a ∷ s) t h k = (h.0, Lacks-append c s t h.1 k)

listing-Lacks :
    (t : Text) (us : List Text) → IsListable t → All IsListable us → Lacks b')' (listing t us)
unfolding listing
listing-Lacks t [] h k = (omega arith, Lacks-append b')' t (b'"' ∷ []) h.2 (omega arith, tt))
listing-Lacks t (u ∷ us) h k = (
  omega arith,
  Lacks-append b')' t (b'"' ∷ b',' ∷ b' ' ∷ listing u us) h.2
      (omega arith, (omega arith, (omega arith, listing-Lacks u us k.0 k.1))),
)

-- What stands behind the list.
show_response : Response → Text
show_response media = []
show_response (text s) = b' ' ∷ s
show_response (reaction e) = b' ' ∷ (codes "react:" ++ e)

-- `/filter ("first", "second", …) response`
pub show_filter : Text → List Text → Response → Text
unfolding listing show_response
show_filter t us r = command_filter ++ b' ' ∷ b'(' ∷ (listing t us ++ b')' ∷ show_response r)

-- A response that survives: trimmed and not empty; a text that would read as a reaction does not.
abbrev pub IsWritable : Response → Type 0
IsWritable media = Unit
IsWritable (text s) = (is_empty s ≡ false) × IsTrimmed s × (strip_prefix (codes "react:") s ≡ none)
IsWritable (reaction e) = (is_empty e ≡ false) × IsTrimmed e

paren-EndsSolid : EndsSolid (b')' ∷ [])
unfolding trim_right
paren-EndsSolid = (refl, refl)

tail-EndsSolid : (r : Response) → IsWritable r → EndsSolid (b')' ∷ show_response r)
unfolding show_response
tail-EndsSolid media h = paren-EndsSolid
tail-EndsSolid (text s) h = EndsSolid-append (b')' ∷ b' ' ∷ []) s (IsTrimmed-EndsSolid s h.1 h.0)
tail-EndsSolid (reaction e) h =
    EndsSolid-append (b')' ∷ b' ' ∷ codes "react:") e (IsTrimmed-EndsSolid e h.1 h.0)

parse_response-text :
    (ts : List Text) (s : Text)
    → IsWritable (text s)
    → parse_response ts s ≡ ok (record { triggers = ts; response = text s })
unfolding parse_response
parse_response-text ts s h = rw h.0 (rw h.2)

parse_response-show :
    (ts : List Text) (r : Response)
    → IsWritable r
    → parse_response ts (trim_space (show_response r)) ≡ ok (record { triggers = ts; response = r })
unfolding parse_response show_response
parse_response-show ts media h = refl
parse_response-show ts (text s) h =
    ap (parse_response ts) (trim_space-cons_space s ∙ h.1) ∙ parse_response-text ts s h
parse_response-show ts (reaction e) h = rw (IsTrimmed-EndsSolid e h.1 h.0).0 (rw h.1 (rw h.0))

filter_arguments-show :
    (t : Text) (us : List Text) (r : Response)
    → IsListable t
    → All IsListable us
    → IsWritable r
    → filter_arguments (b'(' ∷ (listing t us ++ b')' ∷ show_response r))
      ≡ ok (record { triggers = t ∷ us; response = r })
unfolding filter_arguments
filter_arguments-show t us r h k w =
    rw (cut-append b')' (listing t us) (show_response r) (listing-Lacks t us h k))
      (rw (parse-listing t us h k) (parse_response-show (t ∷ us) r w))

-- Whatever its triggers and its response, a filter command in the parenthesised form is parsed into
-- those triggers and that response. The triggers are not empty and hold no quote and no ")"; the
-- response is trimmed and not empty, and a text does not begin with "react:".
pub parse-show_filter :
    (t : Text) (us : List Text) (r : Response)
    → IsListable t
    → All IsListable us
    → IsWritable r
    → parse_filter_command (show_filter t us r) ≡ ok (record { triggers = t ∷ us; response = r })
unfolding parse_filter_command show_filter
parse-show_filter t us r h k w =
    ap (λ s. parenthesized (cut b')' s))
      (EndsSolid-append (listing t us) (b')' ∷ show_response r) (tail-EndsSolid r w)).0
    ∙ filter_arguments-show t us r h k w
