-- ===== src/Transport/Interceptor/Accepted.antt =====
-- Which requests pass (transport/interceptor.go).
use aliyun_ahas.Common.{
  ℕ, ◌^◌, ◌<◌, Text, lit, [], ◌∷◌, is_empty, text_eq, text_eq_iff, decimal, unsigned_value,
  unsigned_value-decimal, all_digits, is_digit, all_digits-decimal, true, false, none, some, ◌≡◌,
  ◌↔◌, ◌⊎◌, inr, refl, arith,
}
use aliyun_ahas.Tools.Auth.{Keys, sign, auth}
use aliyun_ahas.Transport.Request.{at_key, Request, add_header, add_param}
use aliyun_ahas.Transport.Interceptor.{
  Codec, handle_chain, invoke_chain, invoke_next, soleil_key_name, sign_key, timestamp_key,
  sign_data, check_signed, auth_do_handler, add_sign, auth_do_invoker, parses, below_bound,
  timestamp_do_handler, timestamp_do_invoker, get_current_time_in_millis, build_interceptor,
}

-- A request with a time, the right key where it names one, and the signature of its parameters or of the
-- text that it asks to sign.
pub record IsAuthentic (c : Codec) (keys : Keys) (r : Request) : Type 0 where
  pub has_time : parses (at_key r.params timestamp_key) ≡ true
  pub has_sign : is_empty (at_key r.headers sign_key) ≡ false
  pub own_key :
      (at_key r.headers soleil_key_name ≡ []) ⊎ (at_key r.headers soleil_key_name ≡ keys.soleil_key)
  pub marshals : (sign_data c keys r).1 ≡ none
  pub signed : sign c.digest keys (sign_data c keys r).0 ≡ at_key r.headers sign_key

auth_accepts :
    (c : Codec) (keys : Keys) (r : Request) (time : parses (at_key r.params timestamp_key) ≡ true)
    → (auth_do_handler c keys r ≡ none) ↔ IsAuthentic c keys r
unfolding auth_do_handler check_signed auth
auth_accepts c keys r time =
    let same_key = text_eq_iff (at_key r.headers soleil_key_name) keys.soleil_key in
    let same_sign =
      text_eq_iff (sign c.digest keys (sign_data c keys r).0) (at_key r.headers sign_key) in
    (λ e. ground (arith, same_key, same_sign), λ h. ground (arith, same_key, same_sign))

timestamp_accepts :
    (c : Codec) (r : Request)
    → (timestamp_do_handler c r ≡ none) ↔ (parses (at_key r.params timestamp_key) ≡ true)
unfolding timestamp_do_handler parses
timestamp_accepts c r = (λ e. ground arith, λ e. ground arith)

-- The handler's chain lets a request pass exactly if it is authentic; how old its time is does not matter.
pub handle_accepts_iff :
    (c : Codec) (keys : Keys) (unix_nano : ℕ) (r : Request)
    → (handle_chain (build_interceptor c keys unix_nano) r ≡ none) ↔ IsAuthentic c keys r
unfolding handle_chain build_interceptor
handle_accepts_iff c keys unix_nano r =
    let (passes, in_time) = timestamp_accepts c r in
    (
      λ e. let time = passes (ground arith) in (auth_accepts c keys r time).0 (ground arith),
      λ h. ground (arith, in_time h.has_time, (auth_accepts c keys r h.has_time).1 h),
    )

digits_parse :
    (s : Text) (n : ℕ)
    → all_digits s ≡ true
    → unsigned_value s ≡ some n
    → n < 2 ^ 63
    → parses s ≡ true
unfolding parses below_bound all_digits is_digit unsigned_value
digits_parse [] n h e small = ground arith
digits_parse (d ∷ s) n h e small = ground (arith, e)

-- A number that is printed is parsed, if it fits an int64.
decimal-parses : (n : ℕ) → n < 2 ^ 63 → parses (decimal n) ≡ true
decimal-parses n h = digits_parse (decimal n) n (all_digits-decimal n) (unsigned_value-decimal n) h

-- What the invoker's chain makes of a request that it lets pass.
signed_request : Codec → Keys → ℕ → Request → Request
signed_request c keys unix_nano r =
    let timed = add_param r timestamp_key (decimal (get_current_time_in_millis unix_nano)) in
    let keyed = add_header timed soleil_key_name keys.soleil_key in
    add_header keyed sign_key (sign c.digest keys (sign_data c keys keyed).0)

invoke_chain-signed :
    (c : Codec) (keys : Keys) (unix_nano : ℕ) (r s : Request)
    → invoke_chain (build_interceptor c keys unix_nano) r ≡ (none, s)
    → let timed = add_param r timestamp_key (decimal (get_current_time_in_millis unix_nano)) in
      (s ≡ signed_request c keys unix_nano r)
      × ((sign_data c keys (add_header timed soleil_key_name keys.soleil_key)).1 ≡ none)
unfolding invoke_chain build_interceptor auth_do_invoker timestamp_do_invoker add_sign invoke_next
    signed_request
invoke_chain-signed c keys unix_nano r s e = ground arith

signed_request-IsAuthentic :
    (c : Codec) (keys : Keys) (unix_nano : ℕ) (r : Request) (request_id : Text)
    → ((s : Text) → is_empty (c.digest s) ≡ false)
    → get_current_time_in_millis unix_nano < 2 ^ 63
    → let timed = add_param r timestamp_key (decimal (get_current_time_in_millis unix_nano)) in
      (sign_data c keys (add_header timed soleil_key_name keys.soleil_key)).1 ≡ none
      → IsAuthentic c keys (add_header (signed_request c keys unix_nano r) (lit "rid") request_id)
unfolding signed_request add_header add_param sign_data sign text_eq
signed_request-IsAuthentic c keys unix_nano r request_id digests time marshals = record {
  has_time = decimal-parses _ time;
  has_sign = digests _;
  own_key = inr refl;
  marshals = marshals;
  signed = refl;
}

-- A request that the invoker's chain lets pass, with the id that the invoker adds behind it, passes the
-- handler's chain on a side with the same keys and the same marshalling, at any later time, if the
-- digest is never empty and the clock fits an int64.
pub invoked_request_passes :
    (c : Codec) (keys : Keys) (now later : ℕ) (r s : Request) (request_id : Text)
    → ((t : Text) → is_empty (c.digest t) ≡ false)
    → get_current_time_in_millis now < 2 ^ 63
    → invoke_chain (build_interceptor c keys now) r ≡ (none, s)
    → handle_chain (build_interceptor c keys later) (add_header s (lit "rid") request_id) ≡ none
invoked_request_passes c keys now later r s request_id digests time e =
    let (same, marshals) = invoke_chain-signed c keys now r s e in
    let authentic = signed_request-IsAuthentic c keys now r request_id digests time marshals in
    (handle_accepts_iff c keys later (add_header s (lit "rid") request_id)).1 (rw same authentic)
