-- ===== src/I18n/Pl.antt =====
-- frontend/src/i18n/dict.ts: the Polish texts.
use syncwatch.Shared.{String, List, [], ◌∷◌}

abbrev pub pl : List (String × String)
pl =
    ("tagline", "Oglądaj ten sam plik w idealnej synchronizacji.")
    ∷ (
      "guest_sub",
      "Stwórz prywatny pokój, wskaż wszystkim ten sam lokalny film i pozostań na wspólnej osi czasu. Nic nie jest przesyłane.",
    )
    ∷ ("guest_eyebrow", "Wspólne seanse z plików lokalnych")
    ∷ ("create_room", "Stwórz pokój")
    ∷ ("join_with_code", "Dołącz kodem")
    ∷ ("log_in", "Zaloguj się")
    ∷ ("log_out", "Wyloguj")
    ∷ ("signed_in", "Zalogowano")
    ∷ ("auth_login_title", "Witaj ponownie")
    ∷ ("auth_register_title", "Załóż konto")
    ∷ ("auth_login_sub", "Zaloguj się, aby stworzyć lub dołączyć do pokoju.")
    ∷ ("auth_register_sub", "Jedno konto do hostowania i dołączania.")
    ∷ ("email", "E-mail")
    ∷ ("password", "Hasło")
    ∷ ("confirm_password", "Potwierdź hasło")
    ∷ ("username", "Nazwa użytkownika")
    ∷ ("auth_to_register", "Nie masz konta? Załóż je")
    ∷ ("auth_to_login", "Masz już konto? Zaloguj się")
    ∷ ("continue", "Dalej")
    ∷ ("show_password", "Pokaż hasło")
    ∷ ("hide_password", "Ukryj hasło")
    ∷ ("close", "Zamknij")
    ∷ ("err_invalid_credentials", "Nieprawidłowy e-mail lub hasło")
    ∷ ("err_passwords_mismatch", "Hasła nie są takie same")
    ∷ ("err_password_short", "Hasło musi mieć co najmniej 8 znaków")
    ∷ ("err_username_rule", "Nazwa: 3-30 znaków, tylko litery, cyfry oraz _ . -")
    ∷ ("err_register_failed", "Rejestracja nie powiodła się")
    ∷ ("notice_account_created", "Konto utworzone. Zaloguj się, aby kontynuować.")
    ∷ ("dash_title", "Zacznij oglądać")
    ∷ ("dash_sub", "Załóż pokój lub dołącz do istniejącego kodem.")
    ∷ ("new_room", "Nowy pokój")
    ∷ ("new_room_sub", "Nazwij go, zostań hostem, ustaw plik referencyjny.")
    ∷ ("room_name", "Nazwa pokoju")
    ∷ ("room_name_ph", "Wieczór filmowy")
    ∷ ("create", "Stwórz pokój")
    ∷ ("creating", "Tworzenie…")
    ∷ ("join_room", "Dołącz do pokoju")
    ∷ ("join_room_sub", "Wklej 8-znakowy kod od hosta.")
    ∷ ("room_code", "Kod pokoju")
    ∷ ("join", "Dołącz")
    ∷ ("joining", "Dołączanie…")
    ∷ ("your_rooms", "Twoje pokoje")
    ∷ ("file_ready", "Plik gotowy")
    ∷ ("no_file", "Brak pliku")
    ∷ ("no_rooms", "Brak pokojów")
    ∷ ("no_rooms_sub", "Stwórz pokój lub dołącz kodem, aby zobaczyć go tutaj.")
    ∷ ("host", "Host")
    ∷ ("viewer", "Widz")
    ∷ ("open", "Otwórz")
    ∷ ("copy", "Kopiuj kod")
    ∷ ("copied", "Skopiowano")
    ∷ ("delete", "Usuń")
    ∷ ("seats", "miejsc")
    ∷ ("err_create_room", "Nie udało się stworzyć pokoju")
    ∷ ("err_join_room", "Nie udało się dołączyć do pokoju")
    ∷ ("err_load_rooms", "Nie udało się teraz załadować Twoich pokojów.")
    ∷ ("err_copy_unavailable", "Nie udało się skopiować kodu w tej przeglądarce.")
    ∷ ("toast_room_deleted_title", "Pokój usunięty")
    ∷ ("toast_room_deleted_sub", "Pokój został zamknięty i usunięty z panelu.")
    ∷ ("toast_delete_failed_title", "Nie udało się usunąć pokoju")
    ∷ ("delete_room_q", "Usunąć ten pokój?")
    ∷ ("delete_room_sub", "Wszyscy w środku zostaną rozłączeni, a pokój zniknie z panelu.")
    ∷ ("delete_room_btn", "Usuń pokój")
    ∷ ("keep_room", "Zostaw pokój")
    ∷ ("leave", "Wyjdź")
    ∷ ("leave_host", "Zamknij pokój")
    ∷ ("connected", "Połączono")
    ∷ ("reconnecting", "Ponowne łączenie…")
    ∷ ("ready_n", "gotowych")
    ∷ ("back", "Wstecz")
    ∷ ("chat", "Czat")
    ∷ ("participants", "Osoby")
    ∷ ("host_badge", "Host")
    ∷ ("you", "Ty")
    ∷ ("ready_label", "Gotowy")
    ∷ ("waiting_label", "Czeka")
    ∷ ("select_file_host", "Wybierz film referencyjny")
    ∷ (
      "select_file_host_sub",
      "Wskaż lokalny plik, który dopasują wszyscy. Zostaje na Twoim urządzeniu.",
    )
    ∷ ("select_file_viewer", "Dopasuj plik hosta")
    ∷ ("select_file_viewer_sub", "Wybierz swoją lokalną kopię wspólnego filmu.")
    ∷ ("choose_file", "Wybierz plik")
    ∷ ("waiting_host_file", "Czekanie, aż host wybierze plik…")
    ∷ ("verifying", "Weryfikacja…")
    ∷ ("hashing", "Odczyt pliku…")
    ∷ ("ready_to_watch", "Gotowe do oglądania")
    ∷ ("file_unreadable", "Przeglądarka nie odczytała tego pliku")
    ∷ ("file_unreadable_sub", "Spróbuj wybrać ponownie lub użyj lepiej wspieranego formatu.")
    ∷ ("file_not_video", "To nie jest plik wideo")
    ∷ ("file_not_video_sub", "Wybierz wspierany lokalny plik wideo (mp4, mkv, webm…).")
    ∷ ("play", "Odtwórz")
    ∷ ("pause", "Pauza")
    ∷ ("back5", "Cofnij 5s")
    ∷ ("fwd5", "Do przodu 5s")
    ∷ ("fullscreen", "Pełny ekran")
    ∷ ("exit_fullscreen", "Zamknij pełny ekran")
    ∷ ("volume", "Głośność")
    ∷ ("mute", "Wycisz")
    ∷ ("unmute", "Wyłącz wyciszenie")
    ∷ ("change_file", "Zmień plik")
    ∷ ("st_reconnect_title", "Ponowne łączenie…")
    ∷ ("st_reconnect_sub", "Chwila — odświeżamy pokój. Twój plik i miejsce w nim są bezpieczne.")
    ∷ ("st_hostaway_title", "Host wyszedł na chwilę")
    ∷ (
      "st_hostaway_sub",
      "Wstrzymaliśmy odtwarzanie dla wszystkich. Jeśli wróci w ciągu {n}s, wznowimy w tym samym miejscu.",
    )
    ∷ ("st_hostaway_closing", "Zamykamy pokój…")
    ∷ ("st_tab_title", "Oglądasz w innej karcie")
    ∷ (
      "st_tab_sub",
      "Ten pokój jest otwarty gdzie indziej na Twoim koncie, więc wstrzymaliśmy go tutaj, by zachować synchronizację.",
    )
    ∷ ("st_closed_title", "Pokój został zamknięty")
    ∷ ("st_closed_sub", "Host zakończył sesję. Dzięki za wspólne oglądanie.")
    ∷ ("st_closed_btn", "Wróć do panelu")
    ∷ ("st_mismatch_title", "To nie do końca ten plik")
    ∷ (
      "st_mismatch_sub",
      "Nie zgadza się z kopią hosta. Wybierz dokładnie ten plik, który oglądają pozostali, a my Cię zsynchronizujemy.",
    )
    ∷ ("st_mismatch_btn", "Wybierz inny plik")
    ∷ ("st_waiting_chip", "Czekamy na wszystkich · {ready}/{total}")
    ∷ ("st_autoplay_title", "Dotknij, aby uruchomić")
    ∷ (
      "st_autoplay_sub",
      "Przeglądarka potrzebuje jednego dotknięcia, zanim odtworzy dźwięk i obraz.",
    )
    ∷ ("st_autoplay_btn", "Wznów odtwarzanie")
    ∷ ("hint_load_file", "Wczytaj swój plik, aby sterować odtwarzaniem.")
    ∷ ("err_codec", "Ta przeglądarka nie odtworzy tego pliku")
    ∷ ("err_codec_sub", "Spróbuj innej przeglądarki lub szerzej wspieranego formatu wideo.")
    ∷ ("err_playback", "Błąd odtwarzania")
    ∷ (
      "err_playback_sub",
      "Przeładuj lokalny plik lub wybierz go ponownie, aby przywrócić odtwarzacz.",
    )
    ∷ ("message_ph", "Wiadomość…")
    ∷ ("send", "Wyślij")
    ∷ ("chat_empty", "Brak wiadomości. Przywitaj się.")
    ∷ ("chat_load_more", "Wczytaj wcześniejsze wiadomości")
    ∷ ("chat_load_error", "Nie udało się wczytać wcześniejszych wiadomości.")
    ∷ ("retry", "Ponów")
    ∷ ("leave_host_q", "Zamknąć pokój dla wszystkich?")
    ∷ ("leave_host_sub", "Wyjście jako host kończy sesję i rozłącza wszystkich.")
    ∷ ("stay_here", "Zostań")
    ∷ ("cancel", "Anuluj")
    ∷ ("toast_conn_restored_title", "Połączenie przywrócone")
    ∷ ("toast_conn_restored_sub", "Łącze pokoju znów działa.")
    ∷ ("toast_host_back_title", "Host wrócił")
    ∷ ("toast_host_back_sub", "Pokój odzyskał stan bez utraty postępu.")
    ∷ ("toast_left_title", "Opuściłeś pokój")
    ∷ ("toast_left_sub", "Możesz wrócić później z panelu.")
    ∷ ("toast_closed_title", "Pokój zamknięty")
    ∷ ("toast_closed_sub", "Sesja została zamknięta dla wszystkich.")
    ∷ ("toast_slow_down", "Zwolnij")
    ∷ ("toast_heads_up", "Uwaga")
    ∷ ("arr_room_closed_host_left_title", "Host zamknął ten pokój")
    ∷ (
      "arr_room_closed_host_left_sub",
      "Ta sesja się zakończyła. Załóż nowy pokój lub dołącz do innego.",
    )
    ∷ ("arr_room_closed_host_timeout_title", "Host nie wrócił na czas")
    ∷ (
      "arr_room_closed_host_timeout_sub",
      "Trzymaliśmy pokój przez chwilę, po czym zamknęliśmy go, gdy host nie wrócił.",
    )
    ∷ ("arr_room_closed_deleted_title", "Ten pokój został usunięty przez hosta")
    ∷ ("arr_room_closed_deleted_sub", "Bezpiecznie wróciłeś do panelu.")
    ∷ ("arr_room_closed_generic_title", "Ten pokój nie jest już aktywny")
    ∷ ("arr_room_closed_generic_sub", "Sesja została zamknięta.")
    ∷ ("arr_tab_replaced_title", "Sesja przeniosła się do innej karty")
    ∷ (
      "arr_tab_replaced_sub",
      "Tylko jedna aktywna karta pokoju pozostaje połączona, więc tę zamknięto.",
    )
    ∷ ("arr_room_not_found_title", "Ten pokój nie jest już dostępny")
    ∷ ("arr_room_not_found_sub", "Mógł zostać usunięty lub kod wskazuje na zamkniętą sesję.")
    ∷ ("arr_access_lost_title", "Nie masz już dostępu do tego pokoju")
    ∷ ("arr_access_lost_sub", "Twoje członkostwo się zmieniło, więc wróciliśmy Cię do panelu.")
    ∷ ("arr_room_load_failed_title", "Nie udało się teraz otworzyć tego pokoju")
    ∷ (
      "arr_room_load_failed_sub",
      "Panel jest gotowy, gdy spróbujesz ponownie lub otworzysz inny pokój.",
    )
    ∷ ("arr_room_connection_failed_title", "Nie udało się ponownie otworzyć łącza pokoju")
    ∷ ("arr_room_connection_failed_sub", "Nie udało się teraz przywrócić łącza pokoju.")
    ∷ ("nf_title", "Tego pokoju już nie ma")
    ∷ ("nf_sub", "Link może być błędny lub sesja została zamknięta.")
    ∷ ("nf_home", "Wróć na stronę główną")
    ∷ ("app_error_title", "Coś poszło nie tak")
    ∷ ("app_error_sub", "Wystąpił nieoczekiwany błąd. Przeładowanie zwykle pomaga.")
    ∷ ("reload", "Przeładuj")
    ∷ ("loading_room", "Wczytywanie zsynchronizowanej sesji")
    ∷ ("loading_room_sub", "Przywracamy szczegóły pokoju, obecność osób i ostatni czat.")
    ∷ ("room_unavailable_title", "Ta sesja nie jest już otwarta")
    ∷ ("room_unavailable_sub", "Pokój mógł zostać usunięty lub zmienił się Twój dostęp.")
    ∷ ("back_to_dashboard", "Wróć do panelu")
    ∷ ("sign_in_required", "Zaloguj się, aby kontynuować.")
    ∷ []
