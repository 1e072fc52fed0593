-- ===== src/Aliyun/Retrieval.antt =====
-- What `RetrieveVpcMetadata` gives (aliyun/aliyun.go).
use aliyun_ahas.Common.{is_empty, false, ok, ◌≡◌, arith}
use aliyun_ahas.Aliyun.{
  Http, VpcEcsMetadata, get_remote_message, require, retry_vpc_id, retrieve_vpc_metadata,
}

-- The metadata, where they are found, lack nothing but perhaps the host name.
pub record IsComplete (m : VpcEcsMetadata) : Type 0 where
  pub has_vpc_id : is_empty m.vpc_id ≡ false
  pub has_region_id : is_empty m.region_id ≡ false
  pub has_ip : is_empty m.ip ≡ false
  pub has_instance_id : is_empty m.instance_id ≡ false
  pub has_uid : is_empty m.uid ≡ false

pub retrieve_vpc_metadata-IsComplete :
    {W : Type 0} (http : Http W) (m : VpcEcsMetadata) (w : W)
    → (retrieve_vpc_metadata http w).0 ≡ ok m
    → IsComplete m
unfolding retrieve_vpc_metadata retry_vpc_id require get_remote_message
retrieve_vpc_metadata-IsComplete http m w e = ground arith
