-- ===== src/Header/Marks.antt =====
-- What the header shows as chosen at first.
use drishtiscope_oss.Common.{◌≡◌, refl, String, false, some, ◌==◌, All}
use drishtiscope_oss.Browser.{Browser, get_item}
use drishtiscope_oss.Store.{create}
use drishtiscope_oss.Store.Types.{RefreshRate, rate_name}
use drishtiscope_oss.Header.Controls.{rate_option, range_button, is_on, range_names, rate_options}

-- Until a time window is chosen, none of the four is shown as chosen: the store starts with "live".
pub no_range_at_first :
    (b : Browser) → All (λ tr. is_on (range_button tr) (create b).0 ≡ false) range_names
unfolding is_on create
no_range_at_first b = (refl, (refl, (refl, (refl, tt))))

-- A rate that was stored by hand is kept, and no option of the selector is shown as chosen for it.
pub stray_rate :
    (b : Browser) (rate : String)
    → get_item "drishti_refresh" b.local_storage ≡ some rate
    → (rate == "") ≡ false
    → All (λ (o : RefreshRate × String). (rate == rate_name o.0) ≡ false) rate_options
    → All (λ (o : RefreshRate × String). is_on (rate_option o.0) (create b).0 ≡ false) rate_options
unfolding is_on create
stray_rate b rate h k all = rw (h, k) all
