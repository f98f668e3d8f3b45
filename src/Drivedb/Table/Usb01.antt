-- ===== src/Drivedb/Table/Usb01.antt =====
-- backends/exec/drivedb.h, lines 5569 to 5718.
use Prim.Native.String.{String}

unfoldable pub usb_text_01 : String
usb_text_01 =
    "  // USB ID entries\n  ////////////////////////////////////////////////////\n\n  // 0x0080 (JMicron/Toshiba ?)\n  { \"USB: ; JMicron JMS578\",\n    \"0x0080:0x0578\",\n    \"\", // 0x0104\n    \"\",\n    \"-d sat\"\n  },\n  { \"USB: ; \",\n    \"0x0080:0xa001\",\n    \"\", // ORICO 2588US3: 0x0101, 0x0203\n    \"\",\n    \"-d sat\"\n  },\n  // Blueendless\n  { \"USB: Blueendless; Initio\",\n    \"0x0204:0x3639\", // U23QC\n    \"\",\n    \"\",\n    \"-d sat\"\n  },\n  // 0x0350 (?)\n  { \"USB: ViPowER USB3.0 Storage; \",\n    \"0x0350:0x0038\",\n    \"\", // 0x1905\n    \"\",\n    \"-d sat,12\" // ATA output registers missing\n  },\n  // Hewlett-Packard\n  { \"USB: HP Personal Media Drive; \",\n    \"0x03f0:0x070c\",\n    \"\",\n    \"\",\n    \"-d usbsunplus\"\n  },\n  { \"USB: HP x911w; \",\n    \"0x03f0:0x0c5c\",\n    \"\",\n    \"\",\n     \"-d sat\"\n  },\n  { \"USB: HP Desktop HD BD07; \", // 2TB\n    \"0x03f0:0xbd07\",\n    \"\",\n    \"\",\n    \"-d sat\"\n  },\n  // ALi\n  { \"USB: ; ALi M5621\", // USB->PATA\n    \"0x0402:0x5621\",\n    \"\",\n    \"\",\n    \"\" // unsupported\n  },\n  // VIA\n  { \"USB: Connectland BE-USB2-35BP-LCM; VIA VT6204\",\n    \"0x040d:0x6204\",\n    \"\",\n    \"\",\n    \"\" // unsupported\n  },\n  // Buffalo / Melco\n  { \"USB: Buffalo; \",\n    \"0x0411:0x0(157|181|1ce|1[df]9|1e[7a]|240|251|27e)\", // 0x0157: HD-PEU2, 0x0181: HD-PVU2,\n      // 0x01ce: Duo, 0x01d9: HD-PCTU2 (0x0108), 0x01e7: HD-PNTU3, 0x01ea: HD-LBU2,\n      // 0x01f9: HD-PZU3 (0x0100), 0x0240: HD-PCFU3, 0x0251: HD-PNFU3, 0x027e: HD-LC3\n    \"\",\n    \"\",\n    \"-d sat\"\n  },\n  { \"USB: Buffalo SSD-PSTA/N; ASMedia\",\n    \"0x0411:0x039d\",\n    \"\",\n    \"\",\n    \"-d sntasmedia\"\n  },\n  // LG Electronics\n  { \"USB: LG Mini HXD5; JMicron\",\n    \"0x043e:0x70f1\",\n    \"\", // 0x0100\n    \"\",\n    \"-d usbjmicron\"\n  },\n  // Hitachi / Renesas\n  { \"USB: ; Renesas uPD720231A\", // USB2/3->SATA\n    // 0x0229: Pi-102 Raspberry Pi USB to mSATA Converter Board\n    // 0x022a: DeLock 62652 converter SATA 6GB/s > USB 3.0\n    \"0x045b:0x022[9a]\",\n    \"\",\n    \"\",\n    \"-d sat\"\n  },\n  // Philips\n  { \"USB: Philips; \", // SDE3273FC/97 2.5\" SATA HDD enclosure\n    \"0x0471:0x2021\",\n    \"\", // 0x0103\n    \"\",\n    \"-d sat\"\n  },\n  // Toshiba\n  { \"USB: Toshiba Canvio 500GB; SunPlus\",\n    \"0x0480:0xa004\",\n    \"\",\n    \"\",\n    \"-d usbsunplus\"\n  },\n  { \"USB: Toshiba; \",\n    \"0x0480:0x....\",\n    \"\",\n    \"\",\n    \"-d sat\"\n  },\n  // Cypress\n  { \"USB: ; Cypress CY7C68300A (AT2)\",\n    \"0x04b4:0x6830\",\n    \"0x0001\",\n    \"\",\n    \"\" // unsupported\n  },\n  { \"USB: ; Cypress CY7C68300B/C (AT2LP)\",\n    \"0x04b4:0x6830\",\n    \"0x0240\",\n    \"\",\n    \"-d usbcypress\"\n  },\n  // Fujitsu\n  { \"USB: Fujitsu; \",\n    \"0x04c5:0x(11bc|201d|2028)\", \"\", // 0x11bc (0x0101), 0x201d: DeLock 42475 (0x0001),\n    \"\", // 0x2028: Zalman ZM-VE300 (0x0001)\n    \"\"\n    \"-d sat\"\n  },\n  // Myson Century\n  { \"USB: ; Myson Century CS8818\",\n    \"0x04cf:0x8818\",\n    \"\", // 0xb007\n    \"\",\n    \"\" // unsupported\n  },\n  // Samsung\n  { \"USB: Samsung S2 Portable; JMicron\",\n    \"0x04e8:0x1f0[568a]\", // 0x1f0a: SAMSUNG HN-M101XBB\n    \"\",\n    \"\",\n    \"-d usbjmicron\" // 0x1f0a: works also with \"-d sat\"\n  },\n  { \"USB: Samsung S1; JMicron\",\n    \"0x04e8:0x2f0[36]\", // 0x2f03: S1 Portable, 0x2f06: S1 Mini (SAMSUNG HS20YJZ/3AU10-01)"
