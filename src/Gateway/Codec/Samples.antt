-- ===== src/Gateway/Codec/Samples.antt =====
-- Concrete outside code on which the tests run: a reader that gives one byte at a time, and a
-- compression that puts one byte before the body.
use aliyun_ahas.Common.{
  ℕ, ◌+◌, ◌<◌, ◌≤◌, ◌^◌, ◌≡◌, refl, ap, sym, Text, lit, [], ◌∷◌, ◌++◌, Option, none, some, length,
  true, arith,
}
use aliyun_ahas.Tools.Gzip.{Gzip, IsInverse, compress_by_gzip}
use aliyun_ahas.Gateway.Message.{
  AgwMessage, new_agw_message, message_type_biz, message_direction_request, all_compress,
}
use aliyun_ahas.Gateway.Stream.{Reader, IsStream}
use aliyun_ahas.Gateway.Codec.{encode, encode_body, finish}

abbrev pub read_one : Text → ℕ → (Text × Option Text) × Text
read_one [] n = (([], some (lit "EOF")), [])
read_one (b ∷ bs) n = ((b ∷ [], none), bs)

abbrev pub read_byte_one : Text → (ℕ × Option Text) × Text
read_byte_one [] = ((0, some (lit "EOF")), [])
read_byte_one (b ∷ bs) = ((b, none), bs)

abbrev pub byte_reader : Reader
byte_reader = record { State = Text; read = read_one; read_byte = read_byte_one }

pub read_one_some :
    (s : Text) (n : ℕ)
    → 0 < n
    → 0 < length s
    → (c : Text) × (t : Text) × (read_one s n ≡ ((c, none), t))
      × (0 < length c)
      × (length c ≤ n)
      × (s ≡ c ++ t)
read_one_some [] n h some_left = absurd (omega arith)
read_one_some (b ∷ bs) n h some_left = (b ∷ [], bs, refl, omega arith, omega arith, refl)

abbrev pub byte_reader-IsStream : IsStream byte_reader
byte_reader-IsStream = record {
  pending = λ s. s;
  read_some = read_one_some;
  read_end = λ s n h e. (lit "EOF", [], ap (λ z. read_one z n) e);
  read_byte_some = λ s b bs e. (bs, ap read_byte_one e, refl);
  read_byte_end = λ s e. (lit "EOF", 0, [], ap read_byte_one e);
}

abbrev pub marked : Text → Option Text
marked [] = some (lit "unexpected EOF")
marked (b ∷ s) = none

abbrev pub unmark : Text → Text × Option Text
unmark [] = ([], some (lit "unexpected EOF"))
unmark (b ∷ s) = (s, none)

abbrev pub marker : Gzip
marker = record { write = λ s. (31 ∷ s, none); new_reader = marked; copy = unmark }

abbrev pub marker-IsInverse : IsInverse marker
marker-IsInverse = record {
  opens = λ s b e. ap marked (sym (ap (λ r. r.0) e));
  gives_back = λ s b e. ap unmark (sym (ap (λ r. r.0) e));
}

-- A compressed request.
abbrev pub compressed_request : AgwMessage
compressed_request = record new_agw_message {
  req_id = 77;
  message_type = message_type_biz;
  message_direction = message_direction_request;
  client_ip = 3232235521;
  client_vpc_id = lit "vpc";
  server_name = lit "server";
  timeout_ms = 3000;
  client_process_flag = lit "flag";
  handler_name = lit "handler";
  outer_req_id = lit "outer";
  version = all_compress;
  body = lit "{}";
}

pub marker-encodes : (m : AgwMessage) → (encode marker m).1 ≡ true
unfolding encode encode_body finish compress_by_gzip
marker-encodes m = ground arith

pub marker-fits :
    (m : AgwMessage) → length m.body + 1 < 2 ^ 32 → length (encode_body marker m).0 < 2 ^ 32
unfolding encode_body compress_by_gzip
marker-fits m h = ground arith
