-- ===== src/Dpt/Upload/Bounded.antt =====
-- The sizes that an upload test sends.
use oadp_operator.Prelude.{◌≡◌, String, false}
use oadp_operator.Prelude.Int.{ℤ, pos, ltb_ℤ}
use oadp_operator.Cluster.Holds.{after, Keeps, Holds-crash, Holds-if}
use oadp_operator.Cluster.Keeps.{attempt-Keeps, pure-Keeps, bind-Keeps, replied-Keeps, option-Keeps}
use oadp_operator.Dpt.{Lab, UploadConfig, Provider}
use oadp_operator.Dpt.Size.{parse_file_size}
use oadp_operator.Dpt.Upload.{upload_test, upload_sized, upload_timeout, max_test_size_bytes}

-- At most 200 MB, and not negative.
abbrev pub IsAllowed : ℤ → Type 0
IsAllowed n = (ltb_ℤ (pos 209715200) n ≡ false) × (ltb_ℤ n (pos 0) ≡ false)

module _ (c : Lab) (p : Provider) (config : UploadConfig) (bucket : String) where
  upload_sized-Keeps :
      (P : c.World → Type 0) (size : ℤ)
      → ((n t : ℤ) (w : c.World) → IsAllowed n → P w → P (after (c.put_object p bucket n t w)))
      → Keeps P (upload_sized c p config bucket size)
  unfolding upload_sized
  upload_sized-Keeps P size kept =
      Holds-if (ltb_ℤ max_test_size_bytes size) _ _ (λ big. pure-Keeps P _)
        (λ fits.
          Holds-if (ltb_ℤ size (pos 0)) _ _ (λ negative. Holds-crash)
            (λ counted.
              bind-Keeps P _ _ (record { at = λ s h. h })
                (λ start.
                  bind-Keeps P _ _
                    (attempt-Keeps P (c.put_object p bucket size (upload_timeout config.timeout))
                      (λ w. kept size (upload_timeout config.timeout) w (fits, counted)))
                    (λ r.
                      bind-Keeps P _ _ (record { at = λ s h. h })
                        (λ end.
                          replied-Keeps P r _ _ (λ u. pure-Keeps P _) (λ e. pure-Keeps P _))))))

  -- UploadTest uploads no payload of more than 200 MB: what every upload of an allowed size keeps of
  -- the world, the test keeps, whatever the size in its configuration.
  pub upload_test-Keeps :
      (P : c.World → Type 0)
      → ((n t : ℤ) (w : c.World) → IsAllowed n → P w → P (after (c.put_object p bucket n t w)))
      → Keeps P (upload_test c p config bucket)
  unfolding upload_test
  upload_test-Keeps P kept =
      option-Keeps P (parse_file_size c config.file_size) _ _ (pure-Keeps P _)
        (λ o. option-Keeps P o _ _ (pure-Keeps P _) (λ size. upload_sized-Keeps P size kept))
