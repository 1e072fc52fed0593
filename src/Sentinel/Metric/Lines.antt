-- ===== src/Sentinel/Metric/Lines.antt =====
-- The lines that the handler of metrics asks for and answers (sentinel/handler/metric.go).
use aliyun_ahas.Common.{
  ℕ, ◌%◌, ◌^◌, ◌≤◌, Text, lit, is_empty, unsigned_value, Bool-cases, List, [], ◌∷◌, ◌++◌,
  append_assoc, append-nil, false, Option, none, some, Option-cases, Result, ok, err, panic,
  diverge, ◌≡◌, ◌∙◌, inl, inr, ap, refl, if◌then◌else◌, arith,
}
use aliyun_ahas.Common.Actions.{Act}
use aliyun_ahas.Sentinel.Floats.{Floats}
use aliyun_ahas.Transport.Response.{return_success, text, leaf}
use aliyun_ahas.Transport.Request.{Request, at_key}
use aliyun_ahas.Sentinel.Metric.{
  parse_uint, Metrics, max_lines, fetch_cpu_and_load_metric, print_loop, print_next, respond,
  until_end, lines_from, from_start, fetch_metric,
}

max_lines-bound : (s : Text) (n : ℕ) → max_lines s ≡ some n → n ≤ 12000
unfolding max_lines
max_lines-bound s n e = ground arith

parse_uint-some : (s : Text) (n : ℕ) → parse_uint s 64 ≡ some n → is_empty s ≡ false
unfolding parse_uint unsigned_value
parse_uint-some [] n e = absurd (ground arith)
parse_uint-some (c ∷ s) n e = refl

module _ (fl : Floats) {W : Type 0} (metrics : Metrics fl.Float W) where
  open metrics use {Item}

  module _ (other : ℕ → ℕ → Act W (List Item)) where
    abbrev changed : Metrics fl.Float W
    changed = record metrics { find_from_time_with_max_lines = other }

    print_loop-changed :
        (items : List Item) (b : Text)
        → print_loop fl changed b items ≡ print_loop fl metrics b items
    unfolding print_loop
    print_loop-changed [] b = refl
    print_loop-changed (item ∷ items) b =
        λ i. print_next b (metrics.to_thin_string item) (λ b'. print_loop-changed items b' i)

    respond-changed :
        (identity : Text) (found : Result (List Item) × W)
        → respond fl changed identity found ≡ respond fl metrics identity found
    unfolding respond fetch_cpu_and_load_metric
    respond-changed identity (ok list, w) =
        let items =
          if is_empty identity then list ++ fetch_cpu_and_load_metric fl metrics w else list in
        ap (λ x. (x, w)) (print_loop-changed items [])
    respond-changed identity (err e, w) = refl
    respond-changed identity (panic, w) = refl
    respond-changed identity (diverge, w) = refl

    lines_from-changed :
        (start : ℕ) (lines_str identity : Text) (w : W)
        → ((start n : ℕ) (w : W)
            → n ≤ 12000
            → other start n w ≡ metrics.find_from_time_with_max_lines start n w)
        → lines_from fl changed start lines_str identity (max_lines lines_str) w
          ≡ lines_from fl metrics start lines_str identity (max_lines lines_str) w
    unfolding lines_from
    lines_from-changed start lines_str identity w same = elim (Option-cases (max_lines lines_str)) [
      | inl bad ↦ rw bad refl
      | inr (n, asked) ↦
          let small = max_lines-bound lines_str n asked in
          let fits : n % 2 ^ 32 ≤ 12000 = omega (arith, small) in
          rw asked (
            ap (λ found. respond fl changed identity found) (same start (n % 2 ^ 32) w fits)
            ∙ respond-changed identity (metrics.find_from_time_with_max_lines start (n % 2 ^ 32) w))
    ]

    until_end-changed :
        (start : ℕ) (end_str identity : Text) (stop : Option ℕ) (w : W)
        → until_end fl changed start end_str identity stop w
          ≡ until_end fl metrics start end_str identity stop w
    unfolding until_end
    until_end-changed start end_str identity none w = refl
    until_end-changed start end_str identity (some stop) w = respond-changed identity _

    -- The searcher is never asked for more than 12000 lines: one that differs from another only for more gives the
    -- same answers to all requests.
    pub fetch_metric_lines_bounded :
        (r : Request) (w : W)
        → ((start n : ℕ) (w : W)
            → n ≤ 12000
            → other start n w ≡ metrics.find_from_time_with_max_lines start n w)
        → fetch_metric fl (record metrics { find_from_time_with_max_lines = other }) r w
          ≡ fetch_metric fl metrics r w
    unfolding fetch_metric from_start
    fetch_metric_lines_bounded r w same =
        by_start (parse_uint (at_key r.params (lit "startTime")) 64)
      where
        by_start :
            (start : Option ℕ) → from_start fl changed r start w ≡ from_start fl metrics r start w
        by_start none = refl
        by_start (some start) = elim (Bool-cases (is_empty (at_key r.params (lit "endTime")))) [
          | inl open_end ↦ rw open_end (lines_from-changed start _ _ w same)
          | inr closed ↦ rw closed (until_end-changed start _ _ _ w)
        ]

  -- The text of items with one line each.
  abbrev pub lines : (Item → Text) → List Item → Text
  lines line [] = []
  lines line (item ∷ items) = (line item ++ lit "\n") ++ lines line items

  print_loop-lines :
      (line : Item → Text)
      → ((item : Item) → metrics.to_thin_string item ≡ ok (line item))
      → (items : List Item) (b : Text)
      → print_loop fl metrics b items ≡ ok (return_success (leaf (text (b ++ lines line items))))
  unfolding print_loop print_next
  print_loop-lines line prints [] b = simp append-nil
  print_loop-lines line prints (item ∷ items) b = rw (prints item) (
      print_loop-lines line prints items (b ++ (line item ++ lit "\n"))
      ∙ ap (λ t. ok (return_success (leaf (text t))))
          (append_assoc b (line item ++ lit "\n") (lines line items)))

  -- A request with a start and an end that are numbers is answered by a success with one line for each item that
  -- the searcher finds between them for the identity, followed, where no identity is given, by the measures of
  -- the system, where every item can be printed.
  pub fetch_metric_answers :
      (line : Item → Text) (r : Request) (start stop : ℕ) (list : List Item) (w w' : W)
      → ((item : Item) → metrics.to_thin_string item ≡ ok (line item))
      → parse_uint (at_key r.params (lit "startTime")) 64 ≡ some start
      → parse_uint (at_key r.params (lit "endTime")) 64 ≡ some stop
      → metrics.find_by_time_and_resource start stop (at_key r.params (lit "identity")) w
        ≡ (ok list, w')
      → fetch_metric fl metrics r w ≡ (
        ok (
            return_success (
              leaf (
                text (
                  lines line (
                    if is_empty (at_key r.params (lit "identity"))
                    then list ++ fetch_cpu_and_load_metric fl metrics w'
                    else list))))),
        w',
      )
  unfolding fetch_metric from_start until_end respond
  fetch_metric_answers line r start stop list w w' prints from to found =
      let named = parse_uint-some (at_key r.params (lit "endTime")) stop to in
      rw (from, named, to, found)
        (ap (λ x. (x, w'))
          (print_loop-lines line prints
            (if is_empty (at_key r.params (lit "identity"))
              then list ++ fetch_cpu_and_load_metric fl metrics w'
              else list)
            []))
