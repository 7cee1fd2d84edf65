-- ===== src/Examples/DashboardRuns.antt =====
-- Runs of the dashboard (frontend/src/components/home/Dashboard.tsx).
use syncwatch.Shared.{ℕ, ◌≡◌, refl, String, true, List, [], ◌∷◌, str_eq, if◌then◌else◌}
use syncwatch.Dashboard.{Room, sorted_rooms}

abbrev made : (id created_at : String) → Room
made id created_at = record {
  id = id;
  name = id;
  room_code = "AB12CD34";
  host_id = "ann";
  is_active = true;
  max_participants = 8;
  file_version = 0;
  created_at = created_at;
}

abbrev time : String → ℕ
time s = if str_eq s "morning" then 8 else if str_eq s "noon" then 12 else 20

abbrev listed : List Room
listed = made "a" "noon" ∷ made "b" "morning" ∷ made "c" "evening" ∷ made "d" "noon" ∷ []

shown :
    sorted_rooms time listed
    ≡ made "c" "evening" ∷ made "a" "noon" ∷ made "d" "noon" ∷ made "b" "morning" ∷ []
unfolding sorted_rooms
shown = refl
