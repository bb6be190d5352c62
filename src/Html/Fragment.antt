-- ===== src/Html/Fragment.antt =====
-- parseHtmlToDOM: how it ends.
use cpp_custom.Prelude.{
  arith, Bool-cases, Bytes, codes, false, inl, inr, refl, subst, suc, sym, ◌++◌, ◌≡◌, ◌≤◌, ◌+◌, ℕ,
  length,
}
use cpp_custom.Html.Chars.{is_begin_tag}
use cpp_custom.Html.Lexer.{init_html}
use cpp_custom.Html.Parser.{
  Parser, get_next_token, parse_fuel, parse_html_to_dom, parse_tag, start_parser,
}
use cpp_custom.Html.Progress.{size}
use cpp_custom.Html.Result.{Fine, Fine-bind, Fine-mono, ok}
use cpp_custom.Html.Total.{first_token, get_next_token-Fine, load, parse_tag-Fine}
use cpp_custom.Html.Tree.{Dom}

abbrev wrapped : Bytes → Bytes
wrapped content = codes "<wrapper>" ++ (content ++ codes "</wrapper>")

parse_tag-other :
    (f : ℕ) (parent : Bytes) (d : Dom) (p : Parser)
    → is_begin_tag p.cur_tok ≡ false
    → parse_tag (suc f) parent d p ≡ ok (d, p)
unfolding parse_tag
parse_tag-other f parent d p e = rw (e, parse_tag) refl

first_tag-Fine :
    (html parent : Bytes) (d : Dom) (p : Parser)
    → load p ≤ size (init_html html)
    → Fine (λ r. Unit {0}) (parse_tag (parse_fuel html) parent d p)
first_tag-Fine html parent d p m = elim (Bool-cases (is_begin_tag p.cur_tok)) [
  | inl e ↦
      Fine-mono (λ r. load r.1 ≤ size p.lexer) (λ r. Unit {0})
        (parse_tag (parse_fuel html) parent d p) (λ r l. tt)
        (parse_tag-Fine (parse_fuel html) parent d p (first_token html p m) e)
  | inr e ↦
      let n : ℕ = length html + length html + 7 in
      let fuel : suc n ≡ parse_fuel html = omega arith in
      subst (λ f. Fine (λ r. Unit {0}) (parse_tag f parent d p)) fuel
        (subst (Fine (λ r. Unit {0})) (sym (parse_tag-other n parent d p e)) tt)
]

pub parse_html_to_dom-Fine :
    (content : Bytes) (d : Dom) → Fine (λ r. Unit {0}) (parse_html_to_dom content d)
unfolding parse_html_to_dom
parse_html_to_dom-Fine content d =
    let html = wrapped content in
    let Q : Dom → Type 0 = λ r. Unit {0} in
    Fine-bind (λ p. load p ≤ size (init_html html)) Q (get_next_token (start_parser html)) _
      (get_next_token-Fine (start_parser html))
      λ p m.
        Fine-bind (λ r. Unit {0}) Q (parse_tag (parse_fuel html) (codes "wrapper") d p) _
          (first_tag-Fine html (codes "wrapper") d p m)
          λ (d', q) u.
            Fine-bind (λ r. load r ≤ size q.lexer) Q (get_next_token q) _ (get_next_token-Fine q)
              λ r m'. tt
