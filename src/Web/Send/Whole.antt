-- ===== src/Web/Send/Whole.antt =====
-- A response of src/web_app.c arrives whole, or its beginning does.
use esp_nmea_bridge.Prelude.{
  ℕ, suc, zero, ◌+◌, ◌≡◌, ◌≤◌, refl, ap, sym, ◌∙◌, subst, List, [], ◌∷◌, ◌++◌, Option, none, some,
  ltb, if-either, length, take, drop, concat, length-append, append_assoc, arith, lt→ltb,
}
use mathlib.Core.Option
use esp_nmea_bridge.Prelude.CString.{Bytes}
use esp_nmea_bridge.Config.{ok, error}
use esp_nmea_bridge.Web.Reply.{
  Status, ok_200, bad_request_400, forbidden_403, not_found_404, method_not_allowed_405,
  length_required_411, too_large_413, internal_error_500,
}
use esp_nmea_bridge.Web.Send.{
  SendAnswer, took, interrupted, refused, Sent, send_all, status_text, ContentType, html, css,
  plain, javascript, json, content_type_text, and_then, header_pieces, write_response_header,
  write_text_response, header_size,
}

-- No answer is that nothing was taken without an error.
abbrev pub Plain : List SendAnswer → Type 0
Plain [] = Unit
Plain (refused zero ∷ answers) = ⊥
Plain (_ ∷ answers) = Plain answers

-- The answers that are not EINTR.
abbrev pub takes : List SendAnswer → ℕ
takes [] = 0
takes (interrupted ∷ answers) = takes answers
takes (_ ∷ answers) = suc (takes answers)

-- With `ok` all of the bytes were sent, with an error the beginning of them.
abbrev pub Whole : Bytes → Sent → Type 0
Whole bytes (ok, wire, left) = wire ≡ bytes
Whole bytes (error e, wire, left) = (rest : Bytes) × (wire ++ rest ≡ bytes)

record Done (bytes : Bytes) (answers : List SendAnswer) (r : Sent) : Type 0 where
  whole : Whole bytes r
  plain : Plain r.2
  enough : takes answers ≤ takes r.2 + length bytes

-- A call that has returned.
abbrev Returned : (Sent → Type 0) → Option Sent → Type 0
Returned P none = ⊥
Returned P (some r) = P r

Returned-map :
    {P Q : Sent → Type 0} (o : Option Sent) → ((r : Sent) → P r → Q r) → Returned P o → Returned Q o
Returned-map none f h = h
Returned-map (some r) f h = f r h

take-drop : (n : ℕ) (s : Bytes) → take n s ++ drop n s ≡ s
take-drop zero s = refl
take-drop (suc n) [] = refl
take-drop (suc n) (c ∷ s) = ap (λ t. c ∷ t) (take-drop n s)

length-drop : (n : ℕ) (s : Bytes) → length (drop n s) ≤ length s
length-drop zero s = omega arith
length-drop (suc n) [] = omega arith
length-drop (suc n) (c ∷ s) = omega (arith, length-drop n s)

-- What was sent before goes in front.
Whole-behind :
    (front bytes : Bytes) (r : Sent)
    → Whole bytes r
    → Whole (front ++ bytes) (r.0, front ++ r.1, r.2)
Whole-behind front bytes (ok, wire, left) h = ap (λ t. front ++ t) h
Whole-behind front bytes (error e, wire, left) (rest, h) =
    (rest, append_assoc front wire rest ∙ ap (λ t. front ++ t) h)

took-Done :
    (n : ℕ) (c : ℕ) (cs : Bytes) (answers : List SendAnswer) (o : Option Sent)
    → Returned (Done (drop n cs) answers) o
    → Returned
        (Done (c ∷ cs) (took n ∷ answers))
        (Option.map (λ r. (r.0, c ∷ take n cs ++ r.1, r.2)) o)
took-Done n c cs answers none d = absurd d
took-Done n c cs answers (some r) d = record {
  whole =
      subst (λ t. Whole (c ∷ t) (r.0, c ∷ take n cs ++ r.1, r.2)) (take-drop n cs)
        (Whole-behind (c ∷ take n cs) (drop n cs) r d.whole);
  plain = d.plain;
  enough = omega (arith, d.enough, length-drop n cs);
}

send_all-Done :
    (answers : List SendAnswer) (bytes : Bytes)
    → Plain answers
    → length bytes ≤ takes answers
    → Returned (Done bytes answers) (send_all bytes answers)
unfolding send_all
send_all-Done answers [] p h = record { whole = refl; plain = p; enough = omega arith }
send_all-Done [] (c ∷ cs) p h = absurd (omega (arith, h))
send_all-Done (interrupted ∷ answers) (c ∷ cs) p h =
    Returned-map (send_all (c ∷ cs) answers)
      (λ r d. record { whole = d.whole; plain = d.plain; enough = d.enough })
      (send_all-Done answers (c ∷ cs) p h)
send_all-Done (refused zero ∷ answers) (c ∷ cs) p h = absurd p
send_all-Done (refused (suc e) ∷ answers) (c ∷ cs) p h = record {
  whole = (c ∷ cs, refl);
  plain = p;
  enough = omega arith;
}
send_all-Done (took n ∷ answers) (c ∷ cs) p h =
    took-Done n c cs answers _
      (send_all-Done answers (drop n cs) p (omega (arith, h, length-drop n cs)))

behind :
    (wire second : Bytes) (left : List SendAnswer) (o : Option Sent)
    → Returned (Done second left) o
    → Returned (Whole (wire ++ second)) (Option.map (λ r. (r.0, wire ++ r.1, r.2)) o)
behind wire second left none d = absurd d
behind wire second left (some r) d = Whole-behind wire second r d.whole

-- A part and what comes behind it.
and_then-Done :
    (first second : Bytes) (answers : List SendAnswer) (o : Option Sent)
    (next : List SendAnswer → Option Sent)
    → ((left : List SendAnswer)
        → Plain left
        → length second ≤ takes left
        → Returned (Done second left) (next left))
    → length first + length second ≤ takes answers
    → Returned (Done first answers) o
    → Returned (Whole (first ++ second)) (and_then o next)
and_then-Done first second answers none next f h d = absurd d
and_then-Done first second answers (some (error e, wire, left)) next f h d =
    let (rest, q) = d.whole in
    (rest ++ second, sym (append_assoc wire rest second) ∙ ap (λ t. t ++ second) q)
and_then-Done first second answers (some (ok, wire, left)) next f h d =
    subst
      (λ t. Returned (Whole (t ++ second)) (Option.map (λ r. (r.0, wire ++ r.1, r.2)) (next left)))
      d.whole (behind wire second left (next left) (f left d.plain (omega (arith, h, d.enough))))

length-status_text : (status : Status) → length (status_text status) ≤ 25
unfolding status_text
length-status_text ok_200 = omega arith
length-status_text bad_request_400 = omega arith
length-status_text forbidden_403 = omega arith
length-status_text not_found_404 = omega arith
length-status_text method_not_allowed_405 = omega arith
length-status_text length_required_411 = omega arith
length-status_text too_large_413 = omega arith
length-status_text internal_error_500 = omega arith

length-content_type_text : (t : ContentType) → length (content_type_text t) ≤ 25
unfolding content_type_text
length-content_type_text html = omega arith
length-content_type_text css = omega arith
length-content_type_text plain = omega arith
length-content_type_text javascript = omega arith
length-content_type_text json = omega arith

-- The header of a response of less than ten gigabytes fits `header`.
header-fits :
    (print_u : ℕ → Bytes) (status : Status) (t : ContentType) (n : ℕ)
    → length (print_u n) ≤ 10
    → length (concat (header_pieces print_u status t n)) ≤ 191
unfolding header_pieces
header-fits print_u status t n h =
    let a = length-status_text status in
    let b = length-content_type_text t in simp length-append (omega (arith, a, b, h))

response :
    (print_u : ℕ → Bytes) (status : Status) (t : ContentType) (body : Bytes)
    (answers : List SendAnswer)
    → length (print_u (length body)) ≤ 10
    → Plain answers
    → 191 + length body ≤ takes answers
    → Returned
        (Whole (concat (header_pieces print_u status t (length body)) ++ body))
        (write_text_response print_u status t body answers)
unfolding write_text_response write_response_header
response print_u status t body answers h p e =
    let header = concat (header_pieces print_u status t (length body)) in
    let fits = header-fits print_u status t (length body) h in
    and_then-Done header body answers _ (send_all body) (λ left q m. send_all-Done left body q m)
      (omega (arith, fits, e))
      (if-either (Returned (Done header answers)) (ltb (length header) header_size)
        (λ _. send_all-Done answers header p (omega (arith, fits, e)))
        (λ n. let l = sym (lt→ltb (length header) header_size (omega (arith, fits))) ∙ n in cc))

Returned-some :
    {P : Sent → Type 0} (o : Option Sent) → Returned P o → (r : Sent) × (o ≡ some r) × P r
Returned-some none h = absurd h
Returned-some (some r) h = (r, refl, h)

-- When `%zu` of the body's length writes at most ten digits, `web_send` answers often enough besides
-- EINTR, and it never takes nothing without an error, a text response of any status and content type
-- is sent to its end, within the array `header`: with the result 0 the header and the body have been
-- sent whole, with an error a beginning of them.
pub write_text_response-Whole :
    (print_u : ℕ → Bytes) (status : Status) (t : ContentType) (body : Bytes)
    (answers : List SendAnswer)
    → length (print_u (length body)) ≤ 10
    → Plain answers
    → 191 + length body ≤ takes answers
    → (r : Sent) × (write_text_response print_u status t body answers ≡ some r)
      × Whole (concat (header_pieces print_u status t (length body)) ++ body) r
write_text_response-Whole print_u status t body answers h p e =
    Returned-some (write_text_response print_u status t body answers)
      (response print_u status t body answers h p e)
