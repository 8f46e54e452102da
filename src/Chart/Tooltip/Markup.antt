-- ===== src/Chart/Tooltip/Markup.antt =====
-- The tags of the tooltip, which is given to the chart as HTML.
use push_and_pray.Prelude.{
  ℕ, suc, ◌+◌, ◌≡◌, refl, sym, ap, ◌∙◌, ◌≢◌, Option, none, some, List, [], ◌∷◌, ◌++◌, map, arith,
  if◌then◌else◌, ◌==◌, All, All-imp,
}
use push_and_pray.Prelude.Text.{Text, join}
use push_and_pray.Js.Outcome.{Outcome, returns, throws, ◌>>=◌}
use push_and_pray.Types.{Metric}
use push_and_pray.Platform.{Dates, Number}
use push_and_pray.Format.{format_date_time}
use push_and_pray.Chart.Escape.{escape_html, escape_optional, escape_html-IsInert}
use push_and_pray.Chart.Options.{Datum}
use push_and_pray.Chart.Tooltip.{
  TooltipPoint, text_or_empty, date_shown, first_datum, shown_points, tooltip_frame, tooltip_row,
  tooltip,
}

-- The tags that a text opens or closes: its characters "<".
pub tags : Text → ℕ
tags [] = 0
tags (c ∷ s) = let rest = tags s in if c == b'<' then suc rest else rest

tags-append : (s t : Text) → tags (s ++ t) ≡ tags s + tags t
unfolding tags
tags-append [] t = omega arith
tags-append (c ∷ s) t = ground (arith, tags-append s t)

tags-none : (s : Text) → All (λ c. c ≢ b'<') s → tags s ≡ 0
unfolding tags
tags-none [] h = refl
tags-none (c ∷ s) h = ground (arith, h.0, tags-none s h.1)

tags-escape_html : (s : Text) → tags (escape_html s) ≡ 0
tags-escape_html s =
    tags-none (escape_html s)
      (All-imp _ _ (escape_html s) (λ c inert. inert.0.0) (escape_html-IsInert s))

tags-escape_optional : (s : Option Text) → tags (escape_optional s) ≡ 0
unfolding escape_optional
tags-escape_optional none = tags-escape_html []
tags-escape_optional (some s) = tags-escape_html s

ruleset count_tags = (tags-append, tags-escape_html, tags-escape_optional)

module _ {W : Type 0} where
  tags-tooltip_frame :
      (first : Datum W) (time rows : Text) → tags (tooltip_frame first time rows) ≡ 6 + tags rows
  unfolding tooltip_frame tags
  tags-tooltip_frame first time rows = simp count_tags (omega arith)

  module _ ⦃n : Number W⦄ where
    tags-tooltip_row :
        (metric : Metric) (p : TooltipPoint W) (x : Datum W)
        → tags (tooltip_row metric (p, x)) ≡ 6 + tags (text_or_empty p.marker)
    unfolding tooltip_row tags
    tags-tooltip_row metric p x = simp count_tags (omega arith)

    -- The tags of the markers, which the chart engine provides, and of the rows around them.
    pub row_tags : List (TooltipPoint W × Datum W) → ℕ
    row_tags [] = 0
    row_tags ((p, x) ∷ ps) = 6 + tags (text_or_empty p.marker) + row_tags ps

    tags-join :
        (metric : Metric) (ps : List (TooltipPoint W × Datum W))
        → tags (join [] (map (tooltip_row metric) ps)) ≡ row_tags ps
    unfolding join row_tags
    tags-join metric [] = unfold tags in refl
    tags-join metric ((p, x) ∷ []) = omega (arith, tags-tooltip_row metric p x)
    tags-join metric ((p, x) ∷ q ∷ ps) = omega (
      arith,
      tags-append (tooltip_row metric (p, x)) (join [] (map (tooltip_row metric) (q ∷ ps))),
      tags-tooltip_row metric p x,
      tags-join metric (q ∷ ps),
    )

    framed :
        (first : Datum W) (time : Outcome Text) (rows : Text) {html : Text}
        → (do t ← time; returns (tooltip_frame first t rows)) ≡ returns html
        → tags html ≡ 6 + tags rows
    framed first throws rows {html = html} h = absurd cc
    framed first (returns t) rows {html = html} h =
        let same : tooltip_frame first t rows ≡ html = cc in
        ap tags (sym same) ∙ tags-tooltip_frame first t rows

    module _ ⦃d : Dates⦄ where
      -- Where a point has data and the tooltip is made, that is, its date can be read: whatever
      -- the names, sources and dates of the points are, they bring no tag into the tooltip. It
      -- has the six tags of its frame, six for each row, and those of the markers that the chart
      -- engine provides.
      pub tags-tooltip :
          (metric : Metric) (ps : List (TooltipPoint W)) {first : Datum W} {html : Text}
          → first_datum ps ≡ some first
          → tooltip metric ps ≡ returns html
          → tags html ≡ 6 + row_tags (shown_points ps)
      unfolding tooltip
      tags-tooltip metric ps {first = first} found h =
          framed first (format_date_time (date_shown first)) _ (rw (found, tooltip) at h)
          ∙ ap (6 +◌) (tags-join metric (shown_points ps))
