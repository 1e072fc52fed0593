-- ===== src/Sentinel/Metric.antt =====
-- sentinel/handler/metric.go: the handler that gives lines of the metric log. The searcher of the log and the
-- measures of the system are parameters.
pub mod Lines
use aliyun_ahas.Common.{
  ℕ, ◌*◌, ◌/◌, ◌%◌, ◌^◌, Text, lit, is_empty, unsigned_value, List, [], ◌∷◌, ◌++◌, Bool, true,
  false, Option, none, some, Result, ok, err, panic, diverge, ltb, if◌then◌else◌,
}
use aliyun_ahas.Common.Actions.{Act, proceed, ◌>>=◌, ◌>>◌, done, fail}
use aliyun_ahas.Sentinel.Floats.{Floats}
use aliyun_ahas.Transport.Response.{Response, code_of, return_fail, return_success, text, leaf}
use aliyun_ahas.Transport.Request.{Request, at_key}

below : ℕ → Option ℕ → Option ℕ
below bound none = none
below bound (some n) = if ltb n bound then some n else none

-- `strconv.ParseUint(s, 10, bits)`, with none for its error.
unfoldable pub parse_uint : Text → ℕ → Option ℕ
unfolding below
parse_uint s bits = below (2 ^ bits) (unsigned_value s)

-- `find_by_time_and_resource` and `find_from_time_with_max_lines` are those of the searcher; `metric_item` makes an
-- item of a resource, a time and a count, `to_thin_string` prints one.
pub record Metrics (F W : Type 0) : Type 1 where
  pub Item : Type 0
  pub find_by_time_and_resource : ℕ → ℕ → Text → Act W (List Item)
  pub find_from_time_with_max_lines : ℕ → ℕ → Act W (List Item)
  pub metric_item : Text → ℕ → ℕ → Item
  pub to_thin_string : Item → Result Text
  pub current_time_millis : W → ℕ
  pub current_load : W → F
  pub current_cpu_usage : W → F

abbrev pub server_fail : Text → Response
server_fail e = return_fail (code_of (lit "ServerError")) e

-- `maxLines`, with none for a bad one.
unfoldable pub max_lines : Text → Option ℕ
max_lines s =
    if is_empty s
    then some 6000
    else elim (parse_uint s 32) [ none ↦ none | some n ↦ some (if ltb 12000 n then 12000 else n) ]

-- The line of an item behind the text so far, and the rest of the loop.
print_next : Text → Result Text → (Text → Result Response) → Result Response
print_next b (ok s) next = next (b ++ (s ++ lit "\n"))
print_next b (err e) next = ok (server_fail (lit "Unexpected error: " ++ e))
print_next b panic next = panic
print_next b diverge next = diverge

module _ (fl : Floats) {W : Type 0} (metrics : Metrics fl.Float W) where
  open metrics use {Item}

  -- An item of the system, where its measure is positive.
  abbrev pub measured : Text → ℕ → fl.Float → List Item
  measured resource t x =
      if fl.above_zero x
      then metrics.metric_item resource t (fl.to_uint64 (fl.ten_thousand_times x)) ∷ []
      else []

  -- `fetchCpuAndLoadMetric`
  unfoldable pub fetch_cpu_and_load_metric : W → List Item
  fetch_cpu_and_load_metric w =
      let t = metrics.current_time_millis w / 1000 * 1000 in
      measured (lit "__system_load__") t (metrics.current_load w)
      ++ measured (lit "__cpu_usage__") t (metrics.current_cpu_usage w)

  -- The loop that prints the items, with the text so far.
  print_loop : Text → List Item → Result Response
  unfolding print_next
  print_loop b [] = ok (return_success (leaf (text b)))
  print_loop b (item ∷ items) =
      print_next b (metrics.to_thin_string item) (λ b'. print_loop b' items)

  -- The end of `Handle`, for what the searcher gives.
  respond : Text → Result (List Item) × W → Result Response × W
  unfolding print_loop
  respond identity (ok list, w) =
      (print_loop [] (if is_empty identity then list ++ fetch_cpu_and_load_metric w else list), w)
  respond identity (err e, w) = (ok (server_fail (lit "Error when retrieving metrics: " ++ e)), w)
  respond identity (panic, w) = (panic, w)
  respond identity (diverge, w) = (diverge, w)

  until_end : ℕ → Text → Text → Option ℕ → W → Result Response × W
  unfolding respond
  until_end start end_str identity none w = (ok (server_fail (lit "Bad endTime: " ++ end_str)), w)
  until_end start end_str identity (some stop) w =
      respond identity (metrics.find_by_time_and_resource start stop identity w)

  lines_from : ℕ → Text → Text → Option ℕ → W → Result Response × W
  unfolding respond
  lines_from start lines_str identity none w =
      (ok (server_fail (lit "Bad maxLines: " ++ lines_str)), w)
  lines_from start lines_str identity (some n) w =
      respond identity (metrics.find_from_time_with_max_lines start (n % 2 ^ 32) w)

  from_start : Request → Option ℕ → W → Result Response × W
  unfolding until_end lines_from
  from_start r none w =
      (ok (server_fail (lit "empty or bad startTime: " ++ at_key r.params (lit "startTime"))), w)
  from_start r (some start) w =
      let end_str = at_key r.params (lit "endTime") in
      let lines_str = at_key r.params (lit "maxLines") in
      let identity = at_key r.params (lit "identity") in
      if is_empty end_str
      then lines_from start lines_str identity (max_lines lines_str) w
      else until_end start end_str identity (parse_uint end_str 64) w

  -- `Handle` of FetchMetricHandler
  unfoldable pub fetch_metric : Request → W → Result Response × W
  unfolding from_start
  fetch_metric r w = from_start r (parse_uint (at_key r.params (lit "startTime")) 64) w
