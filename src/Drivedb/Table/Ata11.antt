-- ===== src/Drivedb/Table/Ata11.antt =====
-- backends/exec/drivedb.h, lines 5419 to 5568.
use Prim.Native.String.{String}

unfoldable pub ata_text_11 : String
ata_text_11 =
    "    \"\",\n    \"Data recovery specialists reported serious problems with\\n\"\n    \"older WD SMR HDDs: https://www.heise.de/-10800960.html\",\n    \"\"\n  },\n  { \"Western Digital Red Plus\", // tested with WDC WD10EFRX-68JCSN0/01.01A01,\n      // WDC WD10JFCX-68N6GN0/01.01A01, WDC WD20EFZX-68AWUN0/81.00B81,\n      // WDC WD30EFRX-68EUZN0/82.00A82, WDC WD30EFZX-68AWUN0/81.00B81,\n      // WDC WD40EFPX-68C6CN0/81.00A81, WDC WD40EFRX-68WT0N0/80.00A80,\n      // WDC WD40EFZX-68AWUN0/81.00B81,\n      // WDC WD60EFRX-68MYMN1/82.00A82, WDC WD60EFPX-68C5ZN0/81.00A81,\n      // WDC WD80EFZZ-68BTXN0/81.00A81, WDC WD80EFAX-68LHPN0/83.H0A83,\n      // WDC WD80EFZX-68UW8N0/83.H0A83, WDC WD80EFBX-68AZZN0/85.00A85,\n      // WDC WD100EFAX-68LHPN0/83.H0A83, WDC WD101EFAX-68LDBN0/81.00A81,\n      // WDC WD101EFBX-68B0AN0/85.00A85,\n      // WDC WD120EFAX-68UNTN0/81.00A81, WDC WD120EFBX-68B0EN0/85.00A85,\n      // WDC WD140EFFX-68VBXN0/81.00A81\n    \"WDC WD(10JFCX|[1-6]0EFRX|[2-8]0EFPX|[23468]0E[FZ](ZX|ZZ)|(80|10[01]|1[24]0|1[68]1)(JFC|EF[ABFRG])X)-.*\",\n    \"\", \"\", \"\"\n  //\"-v 22,raw48,Helium_Level\" // WD80EFAX, WD80EFZX, WD100EFAX, >= 12TB\n  },\n  { \"Western Digital Red Pro\", // tested with WDC WD2001FFSX-68JNUN0/81.00A81,\n      // WDC WD6002FFWX-68TZ4N0/83.H0A83, WDC WD101KFBX-68R56N0/83.H0A03,\n      // WDC WD102KFBX-68M95N0/83.00A83, WDC WD121KFBX-68EF5N0/83.00A83,\n      // WDC WD141KFGX-68FH9N0/83.00A83, WDC WD142KFGX-68AFPN0/83.00A83,\n      // WDC WD161KFGX-68AFPN0/83.00A83, WDC WD181KFGX-68AFPN0/83.00A83,\n      // WDC WD201KFGX-68BKJN0/83.00A83, WDC WD4005FFBX-68CAUN0/83.00A83\n    \"WDC WD([2-68]00[1235]FF[BSW]|1[02][12]KFB|(1[468]|20)[12]KFG)X-.*\",\n    \"\", \"\",\n  //\"-v 22,raw48,Helium_Level \" // not WD102KFBX\n    \"-v 90,hex48,NAND_Master\" // WD201KFGX\n  },\n  { \"Western Digital Purple (Pro)\", // tested with WDC WD40PURX-64GVNY0/80.00A80,\n      // WDC WD10PURZ-85U8XY0/01.01A01, WDC WD40PURZ-85TTDY0/80.00A80,\n      // WDC WD80PUZX-64NEAY0/80.H0A80, WDC WD121PURP-85B5SY0/82.00A82\n    \"WDC WD[1234568](0|[0248]1)PU[RZ][PXZ]-.*\",\n    \"\", \"\", \"\"\n  //\"-v 22,raw48,Helium_Level\" // WD121PURP-85B5SY0, WD80PUZX-64NEAY0\n  },\n  { \"Western Digital Gold\", // tested with WDC WD1005FBYZ-01YCBB2/RR07,\n      // WDC WD1005VBYZ-02RRWB2/RR07, WDC WD2005VBYZ-02RRWB2/RR07\n      // WDC WD2005FBYZ-01YCBB2/RR07, WDC WD4002FYYZ-01B7CB0/01.01M02,\n      // WDC WD4003FRYZ-01F0DB0/01.01H01, WDC WD6003FRYZ-01F0DB0/01.01H01,\n      // WDC WD8003FRYZ-01JPDB1/01.01H02, WDC WD8004FRYZ-01VAEB0/01.01H01,\n      // WDC WD102KRYZ-01A5AB0/01.01H01, WDC WD121KRYZ-01W0RB0/01.01H01,\n      // WDC WD141KRYZ-01C66B0/01.01H01, WDC WD161KRYZ-01AGBB0/01.01H01\n    \"WDC WD([12]005[FV]B|4002FY|4003FR|600[23]FR|800[234]FR|([12][02468]1|102)KR)YZ-.*\",\n    \"\", \"\", \"\"\n  //\"-v 22,raw48,Helium_Level\" // WD121KRYZ, WD141KRYZ\n  },\n  { \"Western Digital Blue Mobile\", // tested with WDC WD5000LPVX-08V0TT2/03.01A03,\n      // WDC WD10JPVX-75JC3T0/0301A03,  WDC WD10JPVX-22JC3T0/01.01A01,\n      // WDC WD20NPVZ-00WFZT0/01.01A01\n    \"WDC WD(3200LPCX|5000[BL]P[CV]X|7500BPVX|10JP[VZ]X|(15|20)NPVZ)-.*\",\n    \"\", \"\", \"\"\n  },\n  { \"Western Digital Blue Mobile (SMR)\", // ticket #1313, tested with\n      // WDC WD10SPZX-22Z10T0/01.01A01, WDC WD10SPZX-21Z10T0/02.01A02,\n      // WDC WD20SPZX-22CRAT0/01.01A01, WDC WD20SPZX-22UA7T0/01.01A01\n    \"WDC WD[12]0SPZX-.*\",\n    \"\", \"\", \"\"\n  },\n  { \"Western Digital Green Mobile\", // tested with WDC WD20NPVX-00EA4T0/01.01A01\n    \"WDC WD(15|20)NPV[TX]-.*\",\n    \"\", \"\", \"\"\n  },\n  { \"Western Digital Black Mobile\", // tested with WDC WD7500BPKX-22HPJT0/01.01A01,\n      // WDC WD10JPLX-00MBPT0/01.01H01\n    \"WDC WD((16|25|32)00BEK[TX]|(25|32|50|75)00(BPK|LPL)X|10JPLX)-.*\",\n    \"\", \"\", \"\"\n  },\n  { \"Western Digital Elements / My Passport (USB)\", // tested with WDC WD5000BMVW-11AMCS0/01.01A01\n    \"WDC WD(25|32|40|50)00BMV[UVW]-.*\",  // *W-* = USB 3.0\n    \"\", \"\", \"\"\n  },\n  { \"Western Digital Elements / My Passport (USB, AF)\", // tested with\n      // WDC WD5000KMVV-11TK7S1/01.01A01,\n      // WDC WD5000LMVW-11CKRS0/01.01A01 (0x1058:0x07ae),\n      // WDC WD5000LMVW-11VEDS0/01.01A01 (0x1058:0x0816),\n      // WDC WD7500BMVW-11AJGS2/01.01A01,\n      // WDC WD10JMVW-11AJGS2/01.01A01 (0x1058:0x10b8),\n      // WDC WD10JMVW-11AJGS4/01.01A01 (0x1058:0x25a0/25a2),\n      // WDC WD10JMVW-11S5XS1/01.01A01,\n      // WDC WD10SMZW-11Y0TS0/01.01A01,\n      // WDC WD10TMVW-11ZSMS5/01.01A01,\n      // WDC WD20NMVW-11AV3S2/01.01A01 (0x1058:0x0822),\n      // WDC WD20NMVW-11AV3S3/01.01A01 (0x1058:0x0837),\n      // WDC WD20NMVW-11EDZS6/01.01A01 (0x1058-0x259f),\n      // WDC WD20NMVW-11EDZS7/01.01A01 (0x1058:0x259d/25a1),\n      // WDC WD20NMVW-11W68S0/01.01A01,\n      // WDC WD20NMVW-59AV3S3/01.01A01 (0x1058:0x107d),\n      // WDC WD30NMVW-11C3NS4/01.01A01,\n      // WDC WD40NMZW-11GX6S1/01.01A01 (0x1058:0x2599/25e2/25fa)\n      // WDC WD50NDZW-11A8JS1/01.01A01 (0x1058:0x2627)\n      // WDC WD50NDZW-11MR8S1/02.01A02\n      // WDC WD40NDZM-59A8KS1/01.01A01\n    \"WDC WD((5000[LK]|7500[BK]|10[JST]|[234]0N)M|50ND|40ND)[VZ][VWM]-.*\", // *W-* = USB 3.0\n    // Model numbers with \"M\" suffix denote the use of USB-C receptacles instead of Micro-B.\n    \"\", \"\", \"\"\n  },\n  { \"Quantum Bigfoot\", // tested with TS10.0A/A21.0G00, TS12.7A/A21.0F00\n    \"QUANTUM BIGFOOT TS(10\\\\.0|12\\\\.7)A\",\n    \"\", \"\", \"\"\n  },\n  { \"Quantum Fireball lct15\",\n    \"QUANTUM FIREBALLlct15 ([123]0|22)\",\n    \"\", \"\", \"\"\n  },\n  { \"Quantum Fireball lct20\",\n    \"QUANTUM FIREBALLlct20 [1234]0\",\n    \"\", \"\", \"\"\n  },\n  { \"Quantum Fireball CX\",\n    \"QUANTUM FIREBALL CX10.2A\",\n    \"\", \"\", \"\"\n  },\n  { \"Quantum Fireball CR\",\n    \"QUANTUM FIREBALL CR(4.3|6.4|8.4|13.0)A\",\n    \"\", \"\", \"\"\n  },\n  { \"Quantum Fireball EX\", // tested with QUANTUM FIREBALL EX10.2A/A0A.0D00\n    \"QUANTUM FIREBALL EX(3\\\\.2|6\\\\.4|10\\\\.2)A\",\n    \"\", \"\", \"\"\n  },\n  { \"Quantum Fireball ST\",\n    \"QUANTUM FIREBALL ST(3.2|4.3|4300)A\",\n    \"\", \"\", \"\"\n  },\n  { \"Quantum Fireball SE\",\n    \"QUANTUM FIREBALL SE4.3A\",\n    \"\", \"\", \"\"\n  },\n  { \"Quantum Fireball Plus LM\",\n    \"QUANTUM FIREBALLP LM(10.2|15|20.[45]|30)\",\n    \"\", \"\", \"\"\n  },\n  { \"Quantum Fireball Plus AS\",\n    \"QUANTUM FIREBALLP AS(10.2|20.5|30.0|40.0|60.0)\",\n    \"\", \"\", \"\"\n  },\n  { \"Quantum Fireball Plus KX\",\n    \"QUANTUM FIREBALLP KX27.3\",\n    \"\", \"\", \"\"\n  },\n  { \"Quantum Fireball Plus KA\",\n    \"QUANTUM FIREBALLP KA(9|10).1\",\n    \"\", \"\", \"\"\n  },\n\n  ////////////////////////////////////////////////////"
