-- ===== src/Data/Points/Laws.antt =====
-- Moving averages and the points of a series.
use mathlib.Core.List.{reverse, reverse-append, reverse-reverse}
use push_and_pray.Prelude.{
  ℕ, zero, suc, ◌+◌, ◌-◌, ◌≤◌, ◌≡◌, refl, sym, ap, ◌∙◌, List, [], ◌∷◌, ◌++◌, append_assoc, map,
  arith, length, length-append, take, drop, take-append, All, Ordered,
}
use native.Mathlib.Decide.{dec_lt}
use push_and_pray.Types.{Observation, Metric, change, SeriesPoint}
use push_and_pray.Platform.{Dates, Number}
use push_and_pray.Data.Unique.{happened, unique_chronological}
use push_and_pray.Data.Unique.Laws.{Earlier, IsDated}
use push_and_pray.Data.Unique.Result.{unique_chronological-Ordered, unique_chronological-All}
use push_and_pray.Data.Points.{
  window_at, percent_change, point_value, mean, averaged, average_from, rolling_average, to_point,
  points_of, to_series_points,
}

module _ {ℓ} {A : Type ℓ} where
  reverse-cons : (x : A) (xs : List A) → reverse (x ∷ xs) ≡ reverse xs ++ (x ∷ [])
  reverse-cons x xs = reverse-append (x ∷ []) xs

  length-reverse : (xs : List A) → length (reverse xs) ≡ length xs
  length-reverse [] = refl
  length-reverse (x ∷ xs) =
      rw (reverse-cons x xs) (omega (arith, length-append (reverse xs) (x ∷ []), length-reverse xs))

  take-all : (n : ℕ) (xs : List A) → length xs ≤ n → take n xs ≡ xs
  take-all zero [] h = refl
  take-all zero (x ∷ xs) h = absurd (omega arith)
  take-all (suc n) [] h = refl
  take-all (suc n) (x ∷ xs) h = ap (x ∷◌) (take-all n xs (omega arith))

  -- The last entries of a list, kept in order, are the first ones of its reverse.
  drop-eq-reverse-take :
      (k : ℕ) (xs : List A) → drop (length xs - k) xs ≡ reverse (take k (reverse xs))
  drop-eq-reverse-take zero [] = refl
  drop-eq-reverse-take (suc k) [] = let none_left : 0 - suc k ≡ 0 = omega arith in rw none_left
  drop-eq-reverse-take k (x ∷ xs) = elim (dec_lt (length xs) k) [
    | yes all_of ↦
        let none_left : suc (length xs) - k ≡ 0 = omega arith in
        let all_taken : take k (reverse (x ∷ xs)) ≡ reverse (x ∷ xs) =
          take-all k (reverse (x ∷ xs)) (omega (arith, length-reverse (x ∷ xs))) in
        rw (none_left, all_taken) (sym (reverse-reverse (x ∷ xs)))
    | no some_left ↦
        let one_more : suc (length xs) - k ≡ suc (length xs - k) = omega arith in
        rw (one_more) (
          drop-eq-reverse-take k xs
          ∙ ap reverse (
              sym (
                ap (take k) (reverse-cons x xs)
                ∙ take-append k (reverse xs) (x ∷ []) (omega (arith, length-reverse xs)))))
  ]

module _ {W : Type 0} ⦃n : Number W⦄ where
  -- A moving average read from left to right: `seen` holds the points so far, the last one first.
  pub streaming_average : ℕ → List (SeriesPoint W) → List (SeriesPoint W) → List (SeriesPoint W)
  streaming_average size seen [] = []
  streaming_average size seen (p ∷ ps) =
      record p { value = mean (reverse (take size (p ∷ seen))) }
      ∷ streaming_average size (p ∷ seen) ps

  take-append_length :
      (xs ys : List (SeriesPoint W)) (k : ℕ) → length xs ≡ k → take k (xs ++ ys) ≡ xs
  take-append_length xs ys k h = take-append k xs ys (omega arith) ∙ take-all k xs (omega arith)

  window_at-eq-reverse :
      (size : ℕ) (before : List (SeriesPoint W)) (p : SeriesPoint W) (ps : List (SeriesPoint W))
      (i : ℕ)
      → length before ≡ i
      → window_at size (before ++ (p ∷ ps)) i ≡ reverse (take size (p ∷ reverse before))
  unfolding window_at
  window_at-eq-reverse size before p ps i h =
      let front : List (SeriesPoint W) = before ++ (p ∷ []) in
      let long : length front ≡ i + 1 = omega (arith, length-append before (p ∷ [])) in
      let cut : take (i + 1) (before ++ (p ∷ ps)) ≡ front =
        ap (take (i + 1)) (sym (append_assoc before (p ∷ []) ps))
        ∙ take-append_length front ps (i + 1) long in
      rw (cut, ← long)
        (drop-eq-reverse-take size front
          ∙ ap (λ l. reverse (take size l)) (reverse-append before (p ∷ [])))

  average_from-eq :
      (size : ℕ) (before ps : List (SeriesPoint W)) (i : ℕ)
      → length before ≡ i
      → average_from size (before ++ ps) i ps ≡ streaming_average size (reverse before) ps
  unfolding average_from averaged streaming_average
  average_from-eq size before [] i h = refl
  average_from-eq size before (p ∷ ps) i h =
      let front : List (SeriesPoint W) = before ++ (p ∷ []) in
      let rest : average_from size (front ++ ps) (suc i) ps
          ≡ streaming_average size (reverse front) ps =
        average_from-eq size front ps (suc i) (omega (arith, length-append before (p ∷ []))) in
      let rest' : average_from size (before ++ (p ∷ ps)) (suc i) ps
          ≡ streaming_average size (p ∷ reverse before) ps =
        ap (λ l. average_from size l (suc i) ps) (sym (append_assoc before (p ∷ []) ps))
        ∙ rest
        ∙ ap (λ l. streaming_average size l ps) (reverse-append before (p ∷ [])) in
      cc (rest', ap mean (window_at-eq-reverse size before p ps i h))

  -- `rollingAverage` gives each point the mean of the last `size` values up to it, itself included,
  -- or of all so far where there are fewer: no later point counts.
  pub rolling_average-eq-streaming :
      (points : List (SeriesPoint W)) (size : ℕ)
      → rolling_average points size ≡ streaming_average size [] points
  unfolding rolling_average
  rolling_average-eq-streaming points size = average_from-eq size [] points 0 refl

  streaming_average-append :
      (size : ℕ) (seen xs ys : List (SeriesPoint W))
      → take (length xs) (streaming_average size seen (xs ++ ys)) ≡ streaming_average size seen xs
  unfolding streaming_average
  streaming_average-append size seen [] ys = refl
  streaming_average-append size seen (x ∷ xs) ys =
      ap (record x { value = mean (reverse (take size (x ∷ seen))) } ∷◌)
        (streaming_average-append size (x ∷ seen) xs ys)

  -- Points that are added behind a series do not change the averages before them.
  pub rolling_average-append :
      (xs ys : List (SeriesPoint W)) (size : ℕ)
      → take (length xs) (rolling_average (xs ++ ys) size) ≡ rolling_average xs size
  rolling_average-append xs ys size =
      ap (take (length xs)) (rolling_average-eq-streaming (xs ++ ys) size)
      ∙ streaming_average-append size [] xs ys
      ∙ sym (rolling_average-eq-streaming xs size)

  module _ ⦃d : Dates⦄ where
    abbrev pub First : (SeriesPoint W → Type 0) → List (SeriesPoint W) → Type 0
    First P [] = Unit
    First P (p ∷ ps) = P p

    -- Where a number divided by itself is 1, `1 - 1` is 0 and `0 * 100` is 0, as they are for a
    -- finite price that is not 0, a chart of changes begins at 0.
    pub to_series_points-First :
        (items : List Observation)
        → All (λ item. n.div (n.read item.price) (n.read item.price) ≡ n.literal 1) items
        → n.sub (n.literal 1) (n.literal 1) ≡ n.literal 0
        → n.mul (n.literal 0) (n.literal 100) ≡ n.literal 0
        → First (λ p. p.value ≡ n.literal 0) (to_series_points items change)
    unfolding to_series_points points_of to_point point_value percent_change
    to_series_points-First items self one zero_times =
        begins (unique_chronological items) (unique_chronological-All _ items self)
      where
        begins :
            (rows : List Observation)
            → All (λ item. n.div (n.read item.price) (n.read item.price) ≡ n.literal 1) rows
            → First (λ p. p.value ≡ n.literal 0) (points_of change rows)
        begins [] h = tt
        begins (x ∷ xs) h =
            ap (λ q. n.mul (n.sub q (n.literal 1)) (n.literal 100)) h.0
            ∙ ap (λ q. n.mul q (n.literal 100)) one
            ∙ zero_times

module _ (W : Type 0) ⦃n : Number W⦄ ⦃d : Dates⦄ where
  points_of-Ordered :
      (metric : Metric) (items : List Observation)
      → Ordered (λ x y. Earlier (happened x) (happened y)) items
      → Ordered (λ p q. Earlier p.time q.time) (points_of {W = W} metric items)
  unfolding points_of
  points_of-Ordered metric [] h = tt
  points_of-Ordered metric (first ∷ rest) h = mapped (first ∷ rest) h
    where
      to_it : Observation → SeriesPoint W
      to_it = to_point metric (n.read first.price)

      all_later :
          (x : Observation) (xs : List Observation)
          → All (λ y. Earlier (happened x) (happened y)) xs
          → All (λ q. Earlier (happened x) q.time) (map to_it xs)
      all_later x [] k = tt
      all_later x (y ∷ ys) k = (unfold to_point in k.0, all_later x ys k.1)

      mapped :
          (xs : List Observation)
          → Ordered (λ x y. Earlier (happened x) (happened y)) xs
          → Ordered (λ p q. Earlier p.time q.time) (map to_it xs)
      mapped [] k = tt
      mapped (x ∷ xs) k = (unfold to_point in all_later x xs k.0, mapped xs k.1)

  -- If both dates of every observation can be read, the points of a series have strictly
  -- ascending times.
  pub to_series_points-Ordered :
      (items : List Observation) (metric : Metric)
      → All IsDated items
      → Ordered (λ p q. Earlier p.time q.time) (to_series_points {W = W} items metric)
  unfolding to_series_points
  to_series_points-Ordered items metric v =
      points_of-Ordered metric (unique_chronological items) (unique_chronological-Ordered items v)
