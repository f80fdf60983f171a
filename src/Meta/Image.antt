-- ===== src/Meta/Image.antt =====
-- The bytes of a message by concatenation, as a reference for the encoder's growing buffer, and
-- the messages whose fields fit the wire.
use rdmalib.Base.{
  ℕ, ◌≡◌, refl, sym, ap, ◌∙◌, true, List, [], ◌∷◌, ◌++◌, length, All, append-nil, append_assoc,
}
use rdmalib.Base.Words.{to_le_bytes, as_u32, IsU16, IsU32, IsU64}
use rdmalib.Meta.Message.{
  Str, RegionDesc, TupleDesc, Message, hello, welcome, want_group, update, metadata, tuples,
}
use rdmalib.Meta.Utf8.{is_utf8}
use rdmalib.Meta.Encode.{
  put_u16, put_u32, put_u64, put_str, put_region, put_regions, put_tuple, put_tuples, encode_body,
}

abbrev pub str_image : Str → List ℕ
str_image s = to_le_bytes 4 (as_u32 (length s)) ++ s

abbrev pub region_image : RegionDesc → List ℕ
region_image r =
    to_le_bytes 4 r.id
    ++ (str_image r.name
        ++ (to_le_bytes 8 r.size
            ++ (to_le_bytes 4 r.elem_size
                ++ (to_le_bytes 4 r.elem_align ++ str_image r.elem_type))))

abbrev pub tuple_image : TupleDesc → List ℕ
tuple_image t =
    to_le_bytes 4 t.region_id
    ++ (to_le_bytes 8 t.remote_addr ++ (to_le_bytes 8 t.size ++ to_le_bytes 4 t.rkey))

module _ {A : Type 0} (image : A → List ℕ) where
  abbrev pub images : List A → List ℕ
  images [] = []
  images (x ∷ xs) = image x ++ images xs

abbrev pub payload_image : Message → List ℕ
payload_image (hello version) = to_le_bytes 2 version
payload_image (welcome version) = to_le_bytes 2 version
payload_image (want_group group) = to_le_bytes 4 group
payload_image update = []
payload_image (metadata regions) =
    to_le_bytes 4 (as_u32 (length regions)) ++ images region_image regions
payload_image (tuples group descs) =
    to_le_bytes 4 group ++ (to_le_bytes 4 (as_u32 (length descs)) ++ images tuple_image descs)

-- What the types of the source guarantee of a string that travels: UTF-8, with a `u32` length.
pub record IsStr (s : Str) : Type 0 where
  pub utf8 : is_utf8 s ≡ true
  pub short : IsU32 (length s)

pub record IsRegion (r : RegionDesc) : Type 0 where
  pub id : IsU32 r.id
  pub name : IsStr r.name
  pub size : IsU64 r.size
  pub elem_size : IsU32 r.elem_size
  pub elem_align : IsU32 r.elem_align
  pub elem_type : IsStr r.elem_type

pub record IsTuple (t : TupleDesc) : Type 0 where
  pub region_id : IsU32 t.region_id
  pub remote_addr : IsU64 t.remote_addr
  pub size : IsU64 t.size
  pub rkey : IsU32 t.rkey

-- The fields of a message are in the range of their types, and its counts fit the wire's `u32`.
abbrev pub IsMessage : Message → Type 0
IsMessage (hello version) = IsU16 version
IsMessage (welcome version) = IsU16 version
IsMessage (want_group group) = IsU32 group
IsMessage update = Unit
IsMessage (metadata regions) = IsU32 (length regions) × All IsRegion regions
IsMessage (tuples group descs) = IsU32 group × IsU32 (length descs) × All IsTuple descs

put_region_lem : (buf : List ℕ) (r : RegionDesc) → put_region buf r ≡ buf ++ region_image r
unfolding put_region put_u32 put_u64 put_str
put_region_lem buf r = simp append_assoc

put_regions_lem :
    (buf : List ℕ) (rs : List RegionDesc) → put_regions buf rs ≡ buf ++ images region_image rs
unfolding put_regions
put_regions_lem buf [] = sym (append-nil buf)
put_regions_lem buf (r ∷ rs) =
    put_regions_lem (put_region buf r) rs
    ∙ ap (λ b. b ++ images region_image rs) (put_region_lem buf r)
    ∙ append_assoc buf (region_image r) (images region_image rs)

put_tuple_lem : (buf : List ℕ) (t : TupleDesc) → put_tuple buf t ≡ buf ++ tuple_image t
unfolding put_tuple put_u32 put_u64
put_tuple_lem buf t = simp append_assoc

put_tuples_lem :
    (buf : List ℕ) (ts : List TupleDesc) → put_tuples buf ts ≡ buf ++ images tuple_image ts
unfolding put_tuples
put_tuples_lem buf [] = sym (append-nil buf)
put_tuples_lem buf (t ∷ ts) =
    put_tuples_lem (put_tuple buf t) ts
    ∙ ap (λ b. b ++ images tuple_image ts) (put_tuple_lem buf t)
    ∙ append_assoc buf (tuple_image t) (images tuple_image ts)

-- The payload that the encoder's growing buffer ends as is the concatenation of the images of the
-- message's fields.
pub encode_body-image : (msg : Message) → (encode_body msg).1 ≡ payload_image msg
unfolding encode_body put_u16 put_u32
encode_body-image (hello version) = refl
encode_body-image (welcome version) = refl
encode_body-image (want_group group) = refl
encode_body-image update = refl
encode_body-image (metadata regions) = put_regions_lem _ regions
encode_body-image (tuples group descs) =
    put_tuples_lem _ descs ∙ append_assoc (to_le_bytes 4 group) _ _
