-- ===== src/Native/Header/Valid/Plane.antt =====
-- The fields of the plane header of header/plane.rs, after a successful parse.
use jxr.Base.{
  ℕ, zero, suc, ◌^◌, ◌≤◌, ◌<◌, ◌≡◌, refl, ap, ◌∙◌, Bool, true, false, ◌||◌, List, [], ◌∷◌, All,
  length, set, replicate, length-set, length-replicate, Option, none, arith, ◌==◌,
}
use std.Path.{subst}
use jxr.Base.Int.{ℤ}
use jxr.Native.Step.{Outcome}
use jxr.Native.Step.Post.{Post, gives, fails, Post-after, Post-weaken, reject_if-Post, if-Post}
use jxr.Native.BitReader.{BitReader}
use jxr.Native.BitReader.Reads.{
  IsInside, IsAligned, read_bits-Post, read_flag-Post, align_zero-IsAligned,
}
use jxr.Native.Header.Fields.{read_u8}
use jxr.Native.Header.Types.{QuantizerSet}
use jxr.Native.Header.Plane.{
  validate_internal_color, validate_bands, when, read_float_parameters, parse_float_parameters,
  parse_shift_bits, read_chroma_centering, parse_yuv420_layout, parse_yuv422_layout,
  read_long_count, read_short_count, parse_ncomponent_layout, parse_yuv444_layout,
  parse_component_layout, separate_quantizers, independent_quantizers, uniform_quantizers,
  quantizers_of_mode, parse_quantizer_set, some_quantizers, parse_optional_quantizers,
  parse_high_pass, parse_low_and_high_pass, parse_high_band_quantizers, parse_plane_header,
}
use jxr.Native.Header.Valid.{
  IsQuantizerSet, IsOptional, IsImagePlaneHeader, read_u8-Post, read_u16-Post,
}

when-Post :
    {A : Type 0} {I : BitReader → Type 0} {P : A → Type 0} (c : Bool)
    (p : BitReader → Outcome (A × BitReader)) (a : A) (r : BitReader)
    → Post I P (p r)
    → P a
    → I r
    → Post I P (when c p a r)
when-Post true p a r h k v = h
when-Post false p a r h k v = gives k v

All-replicate : (n value bound : ℕ) → value < bound → All (λ x. x < bound) (replicate n value)
All-replicate zero value bound h = tt
All-replicate (suc n) value bound h = (h, All-replicate n value bound h)

All-set_first :
    (values : List ℕ) (value bound : ℕ)
    → All (λ x. x < bound) values
    → value < bound
    → All (λ x. x < bound) (set values 0 value)
All-set_first [] value bound h k = tt
All-set_first (x ∷ values) value bound h k = (k, h.1)

-- Components and chroma centerings of an internal colour format.
record IsLayout (color : ℕ) (layout : ℕ × ℕ × ℕ) : Type 0 where
  count : (1 ≤ layout.0) × (layout.0 ≤ 4111)
  three : (1 ≤ color) → (color ≤ 3) → layout.0 ≡ 3
  x_code : layout.1 ≤ 7
  y_code : layout.2 ≤ 7

record IsHighBands (components bands : ℕ) (high : Option QuantizerSet × Option QuantizerSet)
    : Type 0 where
  lp : IsOptional (IsQuantizerSet components) high.0
  hp : IsOptional (IsQuantizerSet components) high.1
  no_lp : bands ≡ 3 → high.0 ≡ none
  no_hp : 2 ≤ bands → high.1 ≡ none

abbrev IsBytes : ℕ → List ℕ → Type 0
IsBytes components values = (length values ≡ components) × All (λ value. value < 2 ^ 8) values

module _ (bytes : List ℕ) where
  read_chroma_centering-Post :
      (r : BitReader)
      → IsInside bytes r
      → Post (IsInside bytes) (λ code. code ≤ 7) (read_chroma_centering r)
  unfolding read_chroma_centering
  read_chroma_centering-Post r v =
      Post-after _ (read_u8-Post bytes 3 r v) (λ value (below, _) r v. gives (ground arith) v)

  parse_yuv420_layout-Post :
      (r : BitReader)
      → IsInside bytes r
      → Post (IsInside bytes) (IsLayout 1) (parse_yuv420_layout r)
  unfolding parse_yuv420_layout
  parse_yuv420_layout-Post r v = Post-after _ (read_flag-Post bytes r v) (λ _ _ r v.
      Post-after _ (read_chroma_centering-Post r v) (λ x x_code r v.
        Post-after _ (read_flag-Post bytes r v) (λ _ _ r v.
          Post-after _ (read_chroma_centering-Post r v) (λ y y_code r v.
            gives
              (record {
                count = (omega arith, omega arith);
                three = λ _ _. refl;
                x_code = x_code;
                y_code = y_code;
              })
              v))))

  parse_yuv422_layout-Post :
      (r : BitReader)
      → IsInside bytes r
      → Post (IsInside bytes) (IsLayout 2) (parse_yuv422_layout r)
  unfolding parse_yuv422_layout
  parse_yuv422_layout-Post r v = Post-after _ (read_flag-Post bytes r v) (λ _ _ r v.
      Post-after _ (read_chroma_centering-Post r v) (λ x x_code r v.
        Post-after _ (read_bits-Post bytes 4 r v) (λ _ _ r v.
          gives
            (record {
              count = (omega arith, omega arith);
              three = λ _ _. refl;
              x_code = x_code;
              y_code = omega arith;
            })
            v)))

  parse_yuv444_layout-Post :
      (r : BitReader)
      → IsInside bytes r
      → Post (IsInside bytes) (IsLayout 3) (parse_yuv444_layout r)
  unfolding parse_yuv444_layout
  parse_yuv444_layout-Post r v = Post-after _ (read_bits-Post bytes 4 r v) (λ _ _ r v.
      Post-after _ (read_bits-Post bytes 4 r v) (λ _ _ r v.
        gives
          (record {
            count = (omega arith, omega arith);
            three = λ _ _. refl;
            x_code = omega arith;
            y_code = omega arith;
          })
          v))

  read_long_count-Post :
      (r : BitReader)
      → IsInside bytes r
      → Post (IsInside bytes) (λ n. (1 ≤ n) × (n ≤ 4111)) (read_long_count r)
  unfolding read_long_count
  read_long_count-Post r v = Post-after _ (read_u16-Post bytes 12 r v) (λ value (below, _) r v.
      Post-after _ (reject_if-Post _ _ r v) (λ _ _ r v. gives (omega arith, omega arith) v))

  read_short_count-Post :
      (short_count : ℕ) (r : BitReader)
      → IsInside bytes r
      → short_count < 2 ^ 4
      → Post (IsInside bytes) (λ n. (1 ≤ n) × (n ≤ 4111)) (read_short_count short_count r)
  unfolding read_short_count
  read_short_count-Post short_count r v h =
      Post-after _ (read_bits-Post bytes 4 r v) (λ _ _ r v. gives (omega arith, omega arith) v)

  parse_ncomponent_layout-Post :
      (r : BitReader)
      → IsInside bytes r
      → Post (IsInside bytes) (IsLayout 6) (parse_ncomponent_layout r)
  unfolding parse_ncomponent_layout
  parse_ncomponent_layout-Post r v =
      Post-after _ (read_u16-Post bytes 4 r v) (λ short_count (below, _) r v.
        Post-after _
          (if-Post {I = IsInside bytes} {P = λ n. (1 ≤ n) × (n ≤ 4111)} (short_count == 15)
            read_long_count (read_short_count short_count) r (λ _. read_long_count-Post r v)
            (λ _. read_short_count-Post short_count r v below))
          (λ components number r v.
            gives
              (record {
                count = number;
                three = λ _ h. absurd (omega arith);
                x_code = omega arith;
                y_code = omega arith;
              })
              v))

  parse_component_layout-Post :
      (color : ℕ) (r : BitReader)
      → IsInside bytes r
      → Post (IsInside bytes) (IsLayout color) (parse_component_layout color r)
  unfolding parse_component_layout
  parse_component_layout-Post color r v =
      if-Post (color == 0) _ _ r
        (λ h.
          gives
            (record {
              count = (omega arith, omega arith);
              three = λ low high. absurd (ground arith);
              x_code = omega arith;
              y_code = omega arith;
            })
            v)
        (λ _.
          if-Post (color == 1) _ _ r (λ h. of_color 1 h (parse_yuv420_layout-Post r v))
            (λ _.
              if-Post (color == 2) _ _ r (λ h. of_color 2 h (parse_yuv422_layout-Post r v))
                (λ _.
                  if-Post (color == 3) _ _ r (λ h. of_color 3 h (parse_yuv444_layout-Post r v))
                    (λ _.
                      if-Post (color == 4) _ _ r
                        (λ h.
                          gives
                            (record {
                              count = (omega arith, omega arith);
                              three = λ low high. absurd (ground arith);
                              x_code = omega arith;
                              y_code = omega arith;
                            })
                            v)
                        (λ _.
                          if-Post (color == 6) _ _ r
                            (λ h. of_color 6 h (parse_ncomponent_layout-Post r v)) (λ _. fails))))))
    where
      of_color :
          (n : ℕ) {x : Outcome ((ℕ × ℕ × ℕ) × BitReader)}
          → (color == n) ≡ true
          → Post (IsInside bytes) (IsLayout n) x
          → Post (IsInside bytes) (IsLayout color) x
      of_color n {x} h p =
          let same : n ≡ color = ground arith in
          subst (λ k. Post (IsInside bytes) (IsLayout k) x) same p

  independent_quantizers-Post :
      (components : ℕ) (r : BitReader)
      → IsInside bytes r
      → Post (IsInside bytes) (IsBytes components) (independent_quantizers components r)
  unfolding independent_quantizers
  independent_quantizers-Post zero r v = gives (refl, tt) v
  independent_quantizers-Post (suc components) r v =
      Post-after _ (read_u8-Post bytes 8 r v) (λ value (_, byte) r v.
        Post-after _ (independent_quantizers-Post components r v)
          (λ values (number, all_bytes) r v. gives (ap suc number, (byte, all_bytes)) v))

  separate_quantizers-Post :
      (components : ℕ) (r : BitReader)
      → IsInside bytes r
      → Post (IsInside bytes) (IsBytes components) (separate_quantizers components r)
  unfolding separate_quantizers
  separate_quantizers-Post components r v =
      Post-after _ (read_u8-Post bytes 8 r v) (λ luma (_, luma_byte) r v.
        Post-after _ (read_u8-Post bytes 8 r v) (λ chroma (_, chroma_byte) r v.
          gives
            (
              length-set (replicate components chroma) 0 luma ∙ length-replicate components chroma,
              All-set_first _ luma (2 ^ 8) (All-replicate components chroma (2 ^ 8) chroma_byte)
                  luma_byte,
            )
            v))

  uniform_quantizers-Post :
      (components : ℕ) (r : BitReader)
      → IsInside bytes r
      → Post (IsInside bytes) (IsBytes components) (uniform_quantizers components r)
  unfolding uniform_quantizers
  uniform_quantizers-Post components r v =
      Post-after _ (read_u8-Post bytes 8 r v) (λ value (_, byte) r v.
        gives (length-replicate components value, All-replicate components value (2 ^ 8) byte) v)

  -- The `unreachable!` is not reached.
  quantizers_of_mode-Post :
      (mode components : ℕ) (r : BitReader)
      → IsInside bytes r
      → mode < 2 ^ 2
      → Post (IsInside bytes) (IsBytes components) (quantizers_of_mode mode components r)
  unfolding quantizers_of_mode
  quantizers_of_mode-Post mode components r v h =
      if-Post (mode == 0) _ _ r (λ _. uniform_quantizers-Post components r v)
        (λ not_0.
          if-Post (mode == 1) _ _ r (λ _. separate_quantizers-Post components r v)
            (λ not_1.
              if-Post (mode == 2) _ _ r (λ _. independent_quantizers-Post components r v)
                (λ not_2. if-Post (mode == 3) _ _ r (λ _. fails) (λ not_3. absurd (ground arith)))))

  parse_quantizer_set-Post :
      (components : ℕ) (r : BitReader)
      → IsInside bytes r
      → Post (IsInside bytes) (IsQuantizerSet components) (parse_quantizer_set components r)
  unfolding parse_quantizer_set
  parse_quantizer_set-Post components r v =
      Post-after _
        (if-Post {I = IsInside bytes} {P = λ mode. mode < 2 ^ 2} (components == 1) _ _ r
          (λ _. gives (omega arith) v)
          (λ _. Post-weaken (read_u8-Post bytes 2 r v) (λ mode (below, _). below)))
        (λ mode below r v.
          Post-after _ (quantizers_of_mode-Post mode components r v below)
            (λ values (number, all_bytes) r v.
              gives (record { each_component = number; bytes = all_bytes }) v))

  parse_optional_quantizers-Post :
      (components : ℕ) (r : BitReader)
      → IsInside bytes r
      → Post
          (IsInside bytes)
          (IsOptional (IsQuantizerSet components))
          (parse_optional_quantizers components r)
  unfolding parse_optional_quantizers some_quantizers
  parse_optional_quantizers-Post components r v =
      Post-after _ (read_flag-Post bytes r v) (λ present _ r v.
        when-Post present _ none r
          (Post-after _ (parse_quantizer_set-Post components r v)
            (λ quantizers valid r v. gives valid v))
          tt v)

  parse_high_pass-Post :
      (components : ℕ) (r : BitReader)
      → IsInside bytes r
      → Post
          (IsInside bytes)
          (IsOptional (IsQuantizerSet components))
          (parse_high_pass components r)
  unfolding parse_high_pass
  parse_high_pass-Post components r v =
      Post-after _ (read_flag-Post bytes r v)
        (λ _ _ r v. parse_optional_quantizers-Post components r v)

  parse_low_and_high_pass-Post :
      (components bands : ℕ) (r : BitReader)
      → IsInside bytes r
      → (bands == 3) ≡ false
      → bands ≤ 3
      → Post
          (IsInside bytes)
          (IsHighBands components bands)
          (parse_low_and_high_pass components bands r)
  unfolding parse_low_and_high_pass
  parse_low_and_high_pass-Post components bands r v some_lp known =
      Post-after _ (read_flag-Post bytes r v) (λ _ _ r v.
        Post-after _ (parse_optional_quantizers-Post components r v) (λ low low_valid r v.
          Post-after _
            (if-Post {I = IsInside bytes}
              {P = λ high. IsOptional (IsQuantizerSet components) high × (2 ≤ bands → high ≡ none)}
              (bands == 2) _ _ r (λ _. gives (tt, λ _. refl) v)
              (λ some_hp.
                Post-weaken (parse_high_pass-Post components r v)
                  (λ high valid. (valid, λ h. absurd (ground arith)))))
            (λ high (high_valid, none_above) r v.
              gives
                (record {
                  lp = low_valid;
                  hp = high_valid;
                  no_lp = λ h. absurd (ground arith);
                  no_hp = none_above;
                })
                v)))

  parse_high_band_quantizers-Post :
      (components bands : ℕ) (r : BitReader)
      → IsInside bytes r
      → bands ≤ 3
      → Post
          (IsInside bytes)
          (IsHighBands components bands)
          (parse_high_band_quantizers components bands r)
  unfolding parse_high_band_quantizers
  parse_high_band_quantizers-Post components bands r v known =
      if-Post (bands == 3) _ _ r
        (λ _. gives (record { lp = tt; hp = tt; no_lp = λ _. refl; no_hp = λ _. refl }) v)
        (λ some_lp. parse_low_and_high_pass-Post components bands r v some_lp known)

  read_float_parameters-Post :
      (depth : ℕ) (r : BitReader)
      → IsInside bytes r
      → Post (IsInside bytes) (λ (_ : ℕ × ℤ). Unit {0}) (parse_float_parameters depth r)
  unfolding parse_float_parameters read_float_parameters
  read_float_parameters-Post depth r v =
      when-Post (depth == 7) _ _ r
        (Post-after _ (read_u8-Post bytes 8 r v)
          (λ _ _ r v. Post-after _ (read_u8-Post bytes 8 r v) (λ _ _ r v. gives tt v)))
        tt v

  parse_shift_bits-Post :
      (depth : ℕ) (r : BitReader)
      → IsInside bytes r
      → Post (IsInside bytes) (λ shift. shift < 2 ^ 8) (parse_shift_bits depth r)
  unfolding parse_shift_bits
  parse_shift_bits-Post depth r v =
      when-Post ((depth == 2) || (depth == 3) || (depth == 6)) (read_u8 8) 0 r
        (Post-weaken (read_u8-Post bytes 8 r v) (λ shift (_, byte). byte)) (omega arith) v

  -- A plane header is parsed without a panic and ends at a byte boundary.
  pub parse_plane_header-Post :
      (depth : ℕ) (r : BitReader)
      → IsInside bytes r
      → Post (IsAligned bytes) IsImagePlaneHeader (parse_plane_header depth r)
  unfolding parse_plane_header validate_internal_color validate_bands
  parse_plane_header-Post depth r v =
      Post-after _ (read_u8-Post bytes 3 r v) (λ color (color_bits, _) r v.
        Post-after _ (reject_if-Post _ _ r v) (λ _ known r v.
          Post-after _ (read_flag-Post bytes r v) (λ scaled _ r v.
            Post-after _ (read_u8-Post bytes 4 r v) (λ bands _ r v.
              Post-after _ (reject_if-Post _ _ r v) (λ _ bands_known r v.
                Post-after _ (parse_component_layout-Post color r v) (λ layout l r v.
                  Post-after _ (parse_shift_bits-Post depth r v) (λ shift _ r v.
                    Post-after _ (read_float_parameters-Post depth r v) (λ float _ r v.
                      Post-after _ (parse_optional_quantizers-Post layout.0 r v) (λ dc dc_valid r v.
                        Post-after _
                          (parse_high_band_quantizers-Post layout.0 bands r v (ground arith))
                          (λ high h r v. Post-after _ (align_zero-IsAligned bytes r v) (λ _ _ r v.
                            gives
                              (record {
                                known_format = (ground arith, λ e. absurd (ground arith));
                                known_bands = ground arith;
                                some_components = l.count;
                                three_components = l.three;
                                centering_x = l.x_code;
                                centering_y = l.y_code;
                                dc = dc_valid;
                                lp = h.lp;
                                hp = h.hp;
                                no_lp = h.no_lp;
                                no_hp = h.no_hp;
                              })
                              v)))))))))))
