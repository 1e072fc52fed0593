-- ===== src/Sentinel/Nodes.antt =====
-- sentinel/handler/resource_node.go: the handler that lists the resources. The nodes and json are parameters.
use aliyun_ahas.Common.{
  ℕ, ◌+◌, ◌%◌, ◌^◌, Text, lit, List, [], ◌∷◌, ◌++◌, map, append_assoc, append-nil, Option, none,
  some, ◌≡◌, ◌∙◌, arith,
}
use aliyun_ahas.Common.Ints.{ℤ}
use aliyun_ahas.Sentinel.Floats.{Floats}
use aliyun_ahas.Transport.Response.{Response, code_of, return_fail, return_success, text, leaf}

pub record NodeVo : Type 0 where
  pub id : Text
  pub parent_id : Text
  pub resource : Text
  pub concurrency : ℤ
  pub pass_qps : ℕ
  pub block_qps : ℕ
  pub total_qps : ℕ
  pub avg_rt : ℕ
  pub complete_qps : ℕ
  pub timestamp : ℕ

-- What the code asks a `stat.ResourceNode`.
pub record ResourceNode (F : Type 0) : Type 0 where
  pub resource_name : Text
  pub current_goroutine_num : ℤ
  pub pass_qps : F
  pub block_qps : F
  pub complete_qps : F
  pub average_rt : F

module _ (fl : Floats) where
  -- `NodeVoFromReal`, at a time in milliseconds.
  unfoldable pub node_vo_from_real : ℕ → ResourceNode fl.Float → NodeVo
  node_vo_from_real now n = record {
    id = [];
    parent_id = [];
    resource = n.resource_name;
    concurrency = n.current_goroutine_num;
    pass_qps = fl.to_uint64 n.pass_qps;
    block_qps = fl.to_uint64 n.block_qps;
    total_qps = (fl.to_uint64 n.pass_qps + fl.to_uint64 n.block_qps) % 2 ^ 64;
    avg_rt = fl.to_uint64 n.average_rt;
    complete_qps = fl.to_uint64 n.complete_qps;
    timestamp = now;
  }

  -- The loop, with the list so far and the times at which it converts the nodes.
  node_loop : List NodeVo → List (ℕ × ResourceNode fl.Float) → List NodeVo
  node_loop vo_list [] = vo_list
  node_loop vo_list ((now, n) ∷ nodes) = node_loop (vo_list ++ (node_vo_from_real now n ∷ [])) nodes

  node_answer : Text × Option Text → Response
  node_answer (bytes, some e) = return_fail (code_of (lit "ServerError")) (lit "bad data")
  node_answer (bytes, none) = return_success (leaf (text bytes))

  -- `Handle` of ResourceNodeHandler; `marshal` is `json.Marshal`.
  unfoldable pub list_nodes :
      (List NodeVo → Text × Option Text) → List (ℕ × ResourceNode fl.Float) → Response
  unfolding node_loop node_answer
  list_nodes marshal nodes = node_answer (marshal (node_loop [] nodes))

  node_loop-map :
      (nodes : List (ℕ × ResourceNode fl.Float)) (vo_list : List NodeVo)
      → node_loop vo_list nodes
        ≡ vo_list ++ map (λ (p : ℕ × ResourceNode fl.Float). node_vo_from_real p.0 p.1) nodes
  unfolding node_loop
  node_loop-map [] vo_list = simp append-nil
  node_loop-map ((now, n) ∷ nodes) vo_list =
      node_loop-map nodes (vo_list ++ (node_vo_from_real now n ∷ [])) ∙ append_assoc vo_list _ _

  -- The handler answers with the json of one entry for each node, in order, whose total is what passed and what
  -- was blocked, modulo 2 ^ 64; where json gives an error, the answer is a server error.
  pub list_nodes-map :
      (marshal : List NodeVo → Text × Option Text) (nodes : List (ℕ × ResourceNode fl.Float))
      → let r = list_nodes marshal nodes in
        let (bytes, e) =
          marshal (map (λ (p : ℕ × ResourceNode fl.Float). node_vo_from_real p.0 p.1) nodes) in
        (r ≡ elim e [
          | none ↦ return_success (leaf (text bytes))
          | some x ↦ return_fail (code_of (lit "ServerError")) (lit "bad data")
        ])
  unfolding list_nodes node_answer
  list_nodes-map marshal nodes = let whole = node_loop-map nodes [] in ground arith
