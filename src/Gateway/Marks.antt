-- ===== src/Gateway/Marks.antt =====
-- gateway/tsutil.go: the timing marks of a call. `fmt.Sprint` of the map and the text of a time are parameters.
use aliyun_ahas.Common.{
  ℕ, ◌+◌, ◌-◌, ◌/◌, ◌%◌, ◌^◌, ◌≤◌, ◌<◌, Text, lit, text_eq, text_eq_self, decimal, List, [], ◌∷◌,
  ◌++◌, take, Bool, true, not, Option, none, some, ◌==◌, ◌≡◌, refl, if◌then◌else◌, arith,
}

-- `timestampUtil`; a time or a difference of times is the 64 bits of an int64.
pub record TimestampUtil : Type 0 where
  pub perf_map : Text → Option ℕ
  pub req_id : ℕ
  pub outer_req_id : Text
  pub last_timestamp : ℕ
  pub first_mark_date : Text
  pub vpc_id : Text
  pub process_flag : Text
  pub ip : Text
  pub need_mark : Bool

-- `newTimestampUtilV2`
unfoldable pub new_timestamp_util_v2 : Text → Text → Text → Text → TimestampUtil
new_timestamp_util_v2 outer_req_id vpc_id process_flag ip = record {
  perf_map = λ phase. none;
  req_id = 0;
  outer_req_id = outer_req_id;
  last_timestamp = 0;
  first_mark_date = [];
  vpc_id = vpc_id;
  process_flag = process_flag;
  ip = ip;
  need_mark = true;
}

-- `newTimestampUtil`
unfoldable pub new_timestamp_util : ℕ → Text → TimestampUtil
new_timestamp_util req_id outer_req_id = record (new_timestamp_util_v2 outer_req_id [] [] []) {
  req_id = req_id;
}

-- `newTimestampUtilV3`
abbrev pub new_timestamp_util_v3 : TimestampUtil
new_timestamp_util_v3 = new_timestamp_util_v2 (lit "0") [] [] []

-- `nowMilliSecond`, from the nanoseconds of the clock.
abbrev pub now_milli_second : ℕ → ℕ
now_milli_second unix_nano = unix_nano / 1000000

-- `mark`, at a time whose text is `date`; the clock is read once.
unfoldable pub mark : ℕ → Text → Text → TimestampUtil → TimestampUtil
mark unix_nano date phase u =
    let now = now_milli_second unix_nano in
    if not u.need_mark
    then u
    else if u.last_timestamp == 0
    then record u {
      first_mark_date = take 23 date;
      perf_map = λ k. if text_eq phase k then some 0 else u.perf_map k;
      last_timestamp = now;
    }
    else record u {
      perf_map = λ k.
          if text_eq phase k
          then some ((now + 2 ^ 64 - u.last_timestamp) % 2 ^ 64)
          else u.perf_map k;
      last_timestamp = now;
    }

module _ (sprint : (Text → Option ℕ) → Text) where
  -- The end of all three results.
  abbrev results_end : TimestampUtil → Text
  results_end u = u.first_mark_date ++ (lit ", info:" ++ (sprint u.perf_map ++ lit "]"))

  -- `GetResult`
  unfoldable pub get_result : TimestampUtil → Text
  get_result u =
      if not u.need_mark
      then lit "do not need mark"
      else lit "time statistics [reqId:"
        ++ (decimal u.req_id
            ++ (lit ", outerReqId:" ++ (u.outer_req_id ++ (lit ", firstMark:" ++ results_end u))))

  -- `GetResultV2`
  unfoldable pub get_result_v2 : TimestampUtil → Text
  get_result_v2 u =
      if not u.need_mark
      then lit "do not need mark"
      else lit "time statistics [reqId:"
        ++ (decimal u.req_id
            ++ (lit ", outerReqId:"
                ++ (u.outer_req_id
                    ++ (lit ", vpcId:"
                        ++ (u.vpc_id
                            ++ (lit ", processFlag:"
                                ++ (u.process_flag
                                    ++ (lit ", ip:"
                                        ++ (u.ip ++ (lit ", firstMark:" ++ results_end u))))))))))

  -- `GetResultV3`
  unfoldable pub get_result_v3 : TimestampUtil → Text
  get_result_v3 u =
      if not u.need_mark then lit "do not need mark" else lit "firstMark:" ++ results_end u

-- A mark, with the time in nanoseconds and its text.
pub record Mark : Type 0 where
  pub at : ℕ
  pub date : Text
  pub phase : Text

abbrev pub mark_all : List Mark → TimestampUtil → TimestampUtil
mark_all [] u = u
mark_all (m ∷ ms) u = mark_all ms (mark m.at m.date m.phase u)

mark_all-need_mark :
    (ms : List Mark) (u : TimestampUtil) → u.need_mark ≡ true → (mark_all ms u).need_mark ≡ true
unfolding mark
mark_all-need_mark [] u h = h
mark_all-need_mark (m ∷ ms) u h = mark_all-need_mark ms (mark m.at m.date m.phase u) (ground arith)

-- Of two marks in a row, whatever was marked before them, the second has the milliseconds between them, where
-- the clock did not go back and is after the first millisecond of 1970; the first keeps what it had, where its
-- phase is another.
pub mark_measures :
    (outer_req_id vpc_id process_flag ip : Text) (before : List Mark) (first second : Mark)
    → 1000000 ≤ first.at
    → first.at ≤ second.at
    → second.at < 2 ^ 63
    → let u = mark_all before (new_timestamp_util_v2 outer_req_id vpc_id process_flag ip) in
      let u₁ = mark first.at first.date first.phase u in
      let u₂ = mark second.at second.date second.phase u₁ in
      (u₂.perf_map second.phase ≡ some (now_milli_second second.at - now_milli_second first.at))
      × (u₂.perf_map first.phase ≡ (
          if text_eq second.phase first.phase
          then some (now_milli_second second.at - now_milli_second first.at)
          else u₁.perf_map first.phase))
unfolding mark new_timestamp_util_v2
mark_measures outer_req_id vpc_id process_flag ip before first second set ordered fits =
    let u = mark_all before (new_timestamp_util_v2 outer_req_id vpc_id process_flag ip) in
    let needed : u.need_mark ≡ true =
      mark_all-need_mark before (new_timestamp_util_v2 outer_req_id vpc_id process_flag ip) refl in
    let itself = text_eq_self second.phase in ground arith
